-- ===== src/Messaging/Read/Steady.antt =====
-- A socket from which every read gets four bytes, if it asks for so many and they are there.
use libgroupcache.Base.{
  ℕ, zero, suc, ◌+◌, ◌≤◌, ◌≡◌, refl, ap, Bool, List, [], ◌∷◌, ◌++◌, length, take, drop,
  take-append_length, take-length, drop-append_length, arith,
}
use libgroupcache.Base.Words.{min_of}
use libgroupcache.Messaging.Socket.{
  ReadStep, arrives, interrupted, times_out, breaks, got, socket, read_steps,
}

unfoldable pub Steady : List ReadStep → Type 0
Steady [] = Unit
Steady (arrives n ∷ reads) = (3 ≤ n) × Steady reads
Steady (interrupted ∷ reads) = Steady reads
Steady (times_out ∷ reads) = ⊥
Steady (breaks ∷ reads) = ⊥

pub take-append_le :
    {A : Type 0} (n : ℕ) (xs ys : List A) → n ≤ length xs → take n (xs ++ ys) ≡ take n xs
take-append_le zero xs ys le = refl
take-append_le (suc n) [] ys le = absurd (omega arith)
take-append_le (suc n) (x ∷ xs) ys le = ap (◌∷◌ x) (take-append_le n xs ys (omega arith))

pub drop-append_le :
    {A : Type 0} (n : ℕ) (xs ys : List A) → n ≤ length xs → drop n (xs ++ ys) ≡ drop n xs ++ ys
drop-append_le zero xs ys le = refl
drop-append_le (suc n) [] ys le = absurd (omega arith)
drop-append_le (suc n) (x ∷ xs) ys le = drop-append_le n xs ys (omega arith)

pub take-drop : {A : Type 0} (n : ℕ) (xs : List A) → take n xs ++ drop n xs ≡ xs
take-drop zero xs = refl
take-drop (suc n) [] = refl
take-drop (suc n) (x ∷ xs) = ap (◌∷◌ x) (take-drop n xs)

pub length-take_le : {A : Type 0} (n : ℕ) (xs : List A) → n ≤ length xs → length (take n xs) ≡ n
length-take_le zero xs le = refl
length-take_le (suc n) [] le = absurd (omega arith)
length-take_le (suc n) (x ∷ xs) le = ap suc (length-take_le n xs (omega arith))

-- Up to four bytes come at once.
pub read_steps-whole :
    (it : Bool) (xs rest : List ℕ) (reads : List ReadStep)
    → length xs ≤ 4
    → Steady reads
    → (reads' : List ReadStep) × (read_steps it (length xs) (xs ++ rest) reads
        ≡ (got xs, socket rest reads'))
      × Steady reads'
      × (length reads' ≤ length reads)
unfolding read_steps Steady
read_steps-whole it xs rest [] le st =
    ([], rw (take-append_length xs rest, drop-append_length xs rest), tt, omega arith)
read_steps-whole it xs rest (arrives n ∷ reads) le st =
    let all : min_of (length xs) (n + 1) ≡ length xs = ground (arith, st.0) in
    (reads, rw all (rw (take-append_length xs rest, drop-append_length xs rest)), st.1, omega arith)
read_steps-whole it xs rest (interrupted ∷ reads) le st =
    let (r, e, s, l) = read_steps-whole it xs rest reads le st in (r, e, s, omega arith)
read_steps-whole it xs rest (times_out ∷ reads) le st = absurd st
read_steps-whole it xs rest (breaks ∷ reads) le st = absurd st

-- More bytes come in parts, none of them empty.
pub read_steps-part :
    (it : Bool) (xs rest : List ℕ) (reads : List ReadStep)
    → 1 ≤ length xs
    → Steady reads
    → (k : ℕ) × (reads' : List ReadStep) × (read_steps it (length xs) (xs ++ rest) reads
        ≡ (got (take k xs), socket (drop k xs ++ rest) reads'))
      × (1 ≤ k)
      × (k ≤ length xs)
      × Steady reads'
      × (length reads' ≤ length reads)
unfolding read_steps Steady
read_steps-part it xs rest [] one st = (
  length xs,
  [],
  rw (take-append_length xs rest, drop-append_le (length xs) xs rest (omega arith), take-length xs),
  one,
  omega arith,
  tt,
  omega arith,
)
read_steps-part it xs rest (arrives n ∷ reads) one st =
    let k = min_of (length xs) (n + 1) in
    let low : 1 ≤ k = ground arith in
    let high : k ≤ length xs = ground arith in
    (
      k,
      reads,
      rw (take-append_le k xs rest high, drop-append_le k xs rest high),
      low,
      high,
      st.1,
      omega arith,
    )
read_steps-part it xs rest (interrupted ∷ reads) one st =
    let (k, r, e, low, high, s, l) = read_steps-part it xs rest reads one st in
    (k, r, e, low, high, s, omega arith)
read_steps-part it xs rest (times_out ∷ reads) one st = absurd st
read_steps-part it xs rest (breaks ∷ reads) one st = absurd st
