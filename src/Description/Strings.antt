-- ===== src/Description/Strings.antt =====
-- The string that shardcache_node_create of src/shardcache_node.c makes, in its buffer.
use libgroupcache.Base.{
  ℕ, suc, ◌+◌, ◌-◌, ◌≤◌, true, false, some, List, [], ◌∷◌, ◌++◌, length, take, length-append,
  append_assoc, append-nil, leb, ◌==◌, ◌≡◌, refl, ap, ◌∙◌, arith,
}
use libgroupcache.Description.{
  Description, colon, semicolon, strcat, append_address, append_all, node_create,
}

-- The addresses, each after the first with a semicolon before it.
unfoldable pub more : List (List ℕ) → List ℕ
more [] = []
more (a ∷ rest) = semicolon ∷ (a ++ more rest)

unfoldable pub join : List (List ℕ) → List ℕ
join [] = []
join (a ∷ rest) = a ++ more rest

strcat_fits :
    (room : ℕ) (s t : List ℕ) → length s + length t + 1 ≤ room → strcat room s t ≡ some (s ++ t)
unfolding strcat
strcat_fits room s t h =
    let fits : leb (length s + length t + 1) room ≡ true = ground arith in rw fits refl

take-all : (xs : List ℕ) → take (suc (length xs)) xs ≡ xs
take-all [] = refl
take-all (x ∷ xs) = ap {B = List ℕ} (λ t. x ∷ t) (take-all xs)

-- A turn after the first, with two bytes of room.
append_address-later :
    (i slen : ℕ) (s a : List ℕ)
    → length s + 2 ≤ slen
    → append_address (suc i) slen s a ≡ some (slen + (length a + 1), (s ++ semicolon ∷ []) ++ a)
unfolding append_address
append_address-later i slen s a room =
    let later : (suc i == 0) ≡ false = ground arith in
    let len : length (s ++ semicolon ∷ []) ≡ length s + 1 = length-append s (semicolon ∷ []) in
    rw
      (
        later,
        strcat_fits slen s (semicolon ∷ []) (omega arith),
        strcat_fits (slen + (length a + 1)) (s ++ semicolon ∷ []) a (omega (arith, len)),
      )
      refl

snoc_append : (xs ys : List ℕ) (d : ℕ) → (xs ++ d ∷ []) ++ ys ≡ xs ++ d ∷ ys
snoc_append xs ys d = append_assoc xs (d ∷ []) ys

append_all-more :
    (i slen : ℕ) (s : List ℕ) (rest : List (List ℕ))
    → length s + 2 ≤ slen
    → (n : ℕ) × (append_all (suc i) slen s rest ≡ some (n, s ++ more rest))
unfolding append_all more
append_all-more i slen s [] room = (slen, rw (append-nil s) refl)
append_all-more i slen s (a ∷ rest) room =
    let t : List ℕ = s ++ semicolon ∷ a in
    let len : length t ≡ length s + suc (length a) = length-append s (semicolon ∷ a) in
    let (n, e) =
      append_all-more (i + 1) (slen + (length a + 1)) t rest (omega (arith, len, room)) in
    let next : suc i + 1 ≡ suc (i + 1) = ground arith in
    (
      n,
      rw (append_address-later i slen s a room, snoc_append s a semicolon, next)
          (e ∙ ap (λ (u : List ℕ). some (n, u)) (append_assoc s (semicolon ∷ a) (more rest))),
    )

append_address-first :
    (slen : ℕ) (s a : List ℕ)
    → length s + 1 ≤ slen
    → append_address 0 slen s a ≡ some (slen + (length a + 1), s ++ a)
unfolding append_address
append_address-first slen s a room = rw (strcat_fits (slen + (length a + 1)) s a (omega arith)) refl

append_all-join :
    (slen : ℕ) (s : List ℕ) (addresses : List (List ℕ))
    → length s + 2 ≤ slen
    → (n : ℕ) × (append_all 0 slen s addresses ≡ some (n, s ++ join addresses))
unfolding append_all join
append_all-join slen s [] room = (slen, rw (append-nil s) refl)
append_all-join slen s (a ∷ rest) room =
    let len : length (s ++ a) ≡ length s + length a = length-append s a in
    let (n, e) =
      append_all-more 0 (slen + (length a + 1)) (s ++ a) rest (omega (arith, len, room)) in
    (
      n,
      rw (append_address-first slen s a (omega arith))
          (e ∙ ap (λ (u : List ℕ). some (n, u)) (append_assoc s a (more rest))),
    )

abbrev pub described : List ℕ → List (List ℕ) → Description
described label addresses = record {
  label = label;
  address = addresses;
  string = label ++ colon ∷ join addresses;
}

-- shardcache_node_create, of any label and addresses: it writes nothing outside the buffer of the
-- string, and the string is the label, a colon and the addresses with semicolons between them.
pub node_create-described :
    (label : List ℕ) (addresses : List (List ℕ))
    → node_create label addresses ≡ some (described label addresses)
unfolding node_create
node_create-described label addresses =
    let head : List ℕ = label ++ colon ∷ [] in
    let len : length head ≡ length label + 1 = length-append label (colon ∷ []) in
    let room : length label + 3 - 1 ≡ suc (length head) = omega (arith, len) in
    let whole : take (length label + 3 - 1) head ≡ head = rw room (take-all head) in
    let (n, e) = append_all-join (length label + 3) head addresses (omega (arith, len)) in
    rw (whole, e)
      (ap (λ (u : List ℕ). some (record { label = label; address = addresses; string = u }))
        (append_assoc label (colon ∷ []) (join addresses)))
