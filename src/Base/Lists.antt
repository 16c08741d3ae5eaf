-- ===== src/Base/Lists.antt =====
-- Lists measured and indexed by native numbers, and lists of identifiers with a Boolean membership.
use Prim.Native.Nat.{ℕ, zero, suc, ◌+◌, ◌-◌}
use mathlib.Core.Bool.{Bool, true, false, ◌||◌}
use mathlib.Core.List.{List, [], ◌∷◌, ◌++◌}
use mathlib.Core.Option.{Option, none, some}
use mathlib.Core.Path.{◌≡◌, refl, ap}
use native.Mathlib.Omega.{arith}
use native.Mathlib.Decide.{ℕ_discrete}
use libgroupcache.Base.Tests.{◌==◌, if◌then◌else◌}

module _ {ℓ} {A : Type ℓ} where
  abbrev pub length : List A → ℕ
  length [] = 0
  length (x ∷ xs) = suc (length xs)

  abbrev pub get_elem? : List A → ℕ → Option A
  get_elem? [] i = none
  get_elem? (x ∷ xs) zero = some x
  get_elem? (x ∷ xs) (suc i) = get_elem? xs i

  abbrev pub get_or : List A → ℕ → A → A
  get_or [] i d = d
  get_or (x ∷ xs) zero d = x
  get_or (x ∷ xs) (suc i) d = get_or xs i d

  abbrev pub take : ℕ → List A → List A
  take zero xs = []
  take (suc n) [] = []
  take (suc n) (x ∷ xs) = x ∷ take n xs

  abbrev pub drop : ℕ → List A → List A
  drop zero xs = xs
  drop (suc n) [] = []
  drop (suc n) (x ∷ xs) = drop n xs

  pub length-append : (xs ys : List A) → length (xs ++ ys) ≡ length xs + length ys
  length-append [] ys = omega arith
  length-append (x ∷ xs) ys = omega (arith, length-append xs ys)

  pub take-length : (xs : List A) → take (length xs) xs ≡ xs
  take-length [] = refl
  take-length (x ∷ xs) = ap (◌∷◌ x) (take-length xs)

  pub take-append_length : (xs ys : List A) → take (length xs) (xs ++ ys) ≡ xs
  take-append_length [] ys = refl
  take-append_length (x ∷ xs) ys = ap (◌∷◌ x) (take-append_length xs ys)

  pub drop-append_length : (xs ys : List A) → drop (length xs) (xs ++ ys) ≡ ys
  drop-append_length [] ys = refl
  drop-append_length (x ∷ xs) ys = drop-append_length xs ys

  pub length-drop : (n : ℕ) (xs : List A) → length (drop n xs) ≡ length xs - n
  length-drop zero xs = omega arith
  length-drop (suc n) [] = omega arith
  length-drop (suc n) (x ∷ xs) = omega (arith, length-drop n xs)

  -- The last element, as the tail pointer of a list gives it.
  abbrev pub last? : List A → Option A
  last? [] = none
  last? (x ∷ []) = some x
  last? (x ∷ y ∷ ys) = last? (y ∷ ys)

  abbrev pub All {κ} : (A → Type κ) → List A → Type κ
  All P [] = Unit {κ}
  All P (x ∷ xs) = P x × All P xs

-- Lists of identifiers.
abbrev pub elem : ℕ → List ℕ → Bool
elem o [] = false
elem o (x ∷ xs) = (o == x) || elem o xs

-- Drops the first occurrence.
abbrev pub erase : ℕ → List ℕ → List ℕ
erase o [] = []
erase o (x ∷ xs) = if o == x then xs else x ∷ erase o xs

abbrev pub Distinct : List ℕ → Type 0
Distinct [] = Unit {0}
Distinct (x ∷ xs) = (elem x xs ≡ false) × Distinct xs

pub erase_absent : (o : ℕ) (xs : List ℕ) → elem o xs ≡ false → erase o xs ≡ xs
erase_absent o [] h = refl
erase_absent o (x ∷ xs) h = ground (arith, erase_absent o xs)

pub elem-erase :
    (o x : ℕ) (xs : List ℕ)
    → Distinct xs
    → elem x (erase o xs) ≡ (if x == o then false else elem x xs)
elem-erase o x [] d = ground arith
elem-erase o x (y ∷ ys) d = ground (arith, elem-erase o x ys d.1, erase_absent o ys)

pub erase-Distinct : (o : ℕ) (xs : List ℕ) → Distinct xs → Distinct (erase o xs)
erase-Distinct o [] d = tt
erase-Distinct o (x ∷ xs) d = ground (arith, erase-Distinct o xs d.1, elem-erase o x xs d.1)

pub length-erase : (o : ℕ) (xs : List ℕ) → elem o xs ≡ true → length (erase o xs) + 1 ≡ length xs
length-erase o [] h = ground arith
length-erase o (x ∷ xs) h = ground (arith, length-erase o xs)

pub elem-last? : (o : ℕ) (xs : List ℕ) → last? xs ≡ some o → elem o xs ≡ true
elem-last? o [] h = ground arith
elem-last? o (x ∷ []) h = ground arith
elem-last? o (x ∷ y ∷ ys) h = ground (arith, elem-last? o (y ∷ ys))

-- Keys, which are sequences of bytes, are compared.
unfoldable pub keys_discrete : Discrete (List ℕ)
keys_discrete = hlevel ℕ_discrete

-- How often a number is in a list.
unfoldable pub one : ℕ → ℕ → ℕ
one fd x = if fd == x then 1 else 0

unfoldable pub count : ℕ → List ℕ → ℕ
count fd [] = 0
count fd (x ∷ xs) = one fd x + count fd xs
