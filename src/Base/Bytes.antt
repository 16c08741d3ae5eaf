-- ===== src/Base/Bytes.antt =====
-- Bytes as numbers below 256, and integers in network byte order (htons, htonl, ntohs, ntohl).
use Prim.Native.Nat.{ℕ, zero, suc, ◌+◌, ◌*◌, ◌/◌, ◌%◌, ◌^◌, ◌<◌}
use mathlib.Core.List.{List, [], ◌∷◌, ◌++◌}
use mathlib.Core.Option.{Option, none, some}
use mathlib.Core.Path.{◌≡◌, refl}
use native.Mathlib.Omega.{arith}
use libgroupcache.Base.Lists.{All, length}

abbrev pub IsByte : ℕ → Type 0
IsByte b = b < 256

abbrev pub IsBytes : List ℕ → Type 0
IsBytes = All IsByte

unfoldable pub be16 : ℕ → List ℕ
be16 n = n / 256 % 256 ∷ n % 256 ∷ []

unfoldable pub be32 : ℕ → List ℕ
be32 n = n / 2 ^ 24 % 256 ∷ n / 2 ^ 16 % 256 ∷ n / 2 ^ 8 % 256 ∷ n % 256 ∷ []

-- A read gives the value and what follows it; none is a read past the end.
unfoldable pub read8 : List ℕ → Option (ℕ × List ℕ)
read8 (a ∷ rest) = some (a, rest)
read8 _ = none

unfoldable pub read16 : List ℕ → Option (ℕ × List ℕ)
read16 (a ∷ b ∷ rest) = some (a * 256 + b, rest)
read16 _ = none

unfoldable pub read32 : List ℕ → Option (ℕ × List ℕ)
read32 (a ∷ b ∷ c ∷ d ∷ rest) = some (a * 2 ^ 24 + b * 2 ^ 16 + c * 2 ^ 8 + d, rest)
read32 _ = none

-- A pointer moved on by `n` bytes, and the bytes that it passed.
unfoldable pub read_bytes : ℕ → List ℕ → Option (List ℕ × List ℕ)
read_bytes zero rest = some ([], rest)
read_bytes (suc n) [] = none
read_bytes (suc n) (x ∷ rest) = elim (read_bytes n rest) [
  | none ↦ none
  | some (xs, r) ↦ some (x ∷ xs, r)
]

pub read16-be16 : (n : ℕ) (rest : List ℕ) → n < 2 ^ 16 → read16 (be16 n ++ rest) ≡ some (n, rest)
unfolding read16 be16
read16-be16 n rest h = let e : n / 256 % 256 * 256 + n % 256 ≡ n = omega arith in rw e

pub read32-be32 : (n : ℕ) (rest : List ℕ) → n < 2 ^ 32 → read32 (be32 n ++ rest) ≡ some (n, rest)
unfolding read32 be32
read32-be32 n rest h =
    let e : n / 2 ^ 24 % 256 * 2 ^ 24
          + n / 2 ^ 16 % 256 * 2 ^ 16
          + n / 2 ^ 8 % 256 * 2 ^ 8
          + n % 256
        ≡ n =
      omega arith in
    rw e

pub read_bytes-append : (xs rest : List ℕ) → read_bytes (length xs) (xs ++ rest) ≡ some (xs, rest)
unfolding read_bytes
read_bytes-append [] rest = refl
read_bytes-append (x ∷ xs) rest = rw (read_bytes-append xs rest)

pub read_bytes_all : (xs : List ℕ) → read_bytes (length xs) xs ≡ some (xs, [])
unfolding read_bytes
read_bytes_all [] = refl
read_bytes_all (x ∷ xs) = rw (read_bytes_all xs)
