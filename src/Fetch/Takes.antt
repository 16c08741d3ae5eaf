-- ===== src/Fetch/Takes.antt =====
-- Parts of lists that grow at their ends, for src/shardcache.c: shardcache_get_async_helper.
use libgroupcache.Base.{
  ℕ, zero, suc, ◌-◌, ◌≤◌, List, [], ◌∷◌, ◌++◌, length, take, drop, ◌≡◌, refl, ap, ◌∙◌, arith,
}

pub drop-past : (n : ℕ) (xs : List ℕ) → length xs ≤ n → drop n xs ≡ []
drop-past zero [] h = refl
drop-past zero (x ∷ xs) h = absurd (ground arith)
drop-past (suc n) [] h = refl
drop-past (suc n) (x ∷ xs) h = drop-past n xs (ground arith)

pub drop-later :
    (n : ℕ) (xs ys : List ℕ) → length xs ≤ n → drop n (xs ++ ys) ≡ drop (n - length xs) ys
drop-later n [] ys h = ap (λ (k : ℕ). drop k ys) (ground arith)
drop-later zero (x ∷ xs) ys h = absurd (ground arith)
drop-later (suc n) (x ∷ xs) ys h =
    drop-later n xs ys (ground arith) ∙ ap (λ (k : ℕ). drop k ys) (ground arith)

pub drop-within : (n : ℕ) (xs ys : List ℕ) → n ≤ length xs → drop n (xs ++ ys) ≡ drop n xs ++ ys
drop-within zero xs ys h = refl
drop-within (suc n) [] ys h = absurd (ground arith)
drop-within (suc n) (x ∷ xs) ys h = drop-within n xs ys (ground arith)

-- What is taken of a list with more behind it.
pub take-append :
    (n : ℕ) (xs ys : List ℕ) → take n (xs ++ ys) ≡ take n xs ++ take (n - length (take n xs)) ys
take-append zero xs ys = let e : 0 ≡ 0 - 0 = ground arith in ap (λ (k : ℕ). take k ys) e
take-append (suc n) [] ys = let e : suc n ≡ suc n - 0 = ground arith in ap (λ (k : ℕ). take k ys) e
take-append (suc n) (x ∷ xs) ys =
    let same : n - length (take n xs) ≡ suc n - suc (length (take n xs)) = ground arith in
    ap {B = List ℕ} (λ t. x ∷ t) (take-append n xs ys ∙ ap (λ (k : ℕ). take n xs ++ take k ys) same)

pub take-past : (n : ℕ) (xs : List ℕ) → length xs ≤ n → take n xs ≡ xs
take-past zero [] h = refl
take-past zero (x ∷ xs) h = absurd (ground arith)
take-past (suc n) [] h = refl
take-past (suc n) (x ∷ xs) h = ap {B = List ℕ} (λ t. x ∷ t) (take-past n xs (ground arith))

pub length-take : (n : ℕ) (xs : List ℕ) → length (take n xs) ≤ n
length-take zero xs = ground arith
length-take (suc n) [] = ground arith
length-take (suc n) (x ∷ xs) = let r = length-take n xs in ground arith

pub length-take_within : (n : ℕ) (xs : List ℕ) → n ≤ length xs → length (take n xs) ≡ n
length-take_within zero xs h = refl
length-take_within (suc n) [] h = absurd (ground arith)
length-take_within (suc n) (x ∷ xs) h =
    let r = length-take_within n xs (ground arith) in ground arith
