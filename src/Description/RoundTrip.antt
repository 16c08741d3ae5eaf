-- ===== src/Description/RoundTrip.antt =====
-- The string of a node of src/shardcache_node.c, read back.
use libgroupcache.Base.{
  ℕ, true, false, Bool-cases, some, List, [], ◌∷◌, ◌++◌, ◌==◌, ==_refl, elem, ◌≡◌, append-nil, refl,
  ap, ◌∙◌, arith, inl, inr,
}
use libgroupcache.Description.{
  Description, colon, semicolon, is_host_char, all_digits, ends_with_port, check_rest,
  check_address, strsep, tokens, all_checked, create_from_string, described_by, node_create,
}
use libgroupcache.Description.Strings.{more, join, described, node_create-described}

strsep-append :
    (d : ℕ) (xs ys : List ℕ) → elem d xs ≡ false → strsep d (xs ++ d ∷ ys) ≡ (xs, some ys)
unfolding strsep
strsep-append d [] ys absent = rw (==_refl d) refl
strsep-append d (x ∷ xs) ys absent =
    let other : (x == d) ≡ false = ground arith in
    let later : elem d xs ≡ false = ground arith in rw (strsep-append d xs ys later, other) refl

tokens-one : (d : ℕ) (xs : List ℕ) → elem d xs ≡ false → tokens d xs ≡ xs ∷ []
unfolding tokens
tokens-one d [] absent = refl
tokens-one d (x ∷ xs) absent =
    let other : (x == d) ≡ false = ground arith in
    let later : elem d xs ≡ false = ground arith in rw (other, tokens-one d xs later) refl

tokens-append :
    (d : ℕ) (xs ys : List ℕ) → elem d xs ≡ false → tokens d (xs ++ d ∷ ys) ≡ xs ∷ tokens d ys
unfolding tokens
tokens-append d [] ys absent = rw (==_refl d) refl
tokens-append d (x ∷ xs) ys absent =
    let other : (x == d) ≡ false = ground arith in
    let later : elem d xs ≡ false = ground arith in rw (other, tokens-append d xs ys later) refl

-- No semicolon is in an address that passes the test.
host_char-absent : (c : ℕ) → is_host_char c ≡ true → (c == semicolon) ≡ false
unfolding is_host_char
host_char-absent c h = ground arith

all_digits-absent : (cs : List ℕ) → all_digits cs ≡ true → elem semicolon cs ≡ false
unfolding all_digits
all_digits-absent [] h = refl
all_digits-absent (c ∷ cs) h =
    let later : all_digits cs ≡ true = ground arith in
    let rest = all_digits-absent cs later in ground arith

ends_with_port-absent : (cs : List ℕ) → ends_with_port cs ≡ true → elem semicolon cs ≡ false
unfolding ends_with_port
ends_with_port-absent [] h = refl
ends_with_port-absent (c ∷ cs) h =
    let later : all_digits cs ≡ true = ground arith in
    let rest = all_digits-absent cs later in ground arith

check_rest-absent : (cs : List ℕ) → check_rest cs ≡ true → elem semicolon cs ≡ false
unfolding check_rest
check_rest-absent [] h = refl
check_rest-absent (c ∷ cs) h = elim (Bool-cases (is_host_char c)) [
  | inl y ↦
      let other = host_char-absent c y in
      let later = check_rest-absent cs (rw y at h) in ground arith
  | inr n ↦ ends_with_port-absent (c ∷ cs) (rw n at h)
]

check_address-absent : (cs : List ℕ) → check_address cs ≡ true → elem semicolon cs ≡ false
unfolding check_address
check_address-absent [] h = refl
check_address-absent (c ∷ cs) h =
    let host : is_host_char c ≡ true = ground arith in
    let later : check_rest cs ≡ true = ground arith in
    let other = host_char-absent c host in let rest = check_rest-absent cs later in ground arith

tokens-join :
    (a : List ℕ) (rest : List (List ℕ))
    → all_checked (a ∷ rest) ≡ true
    → tokens semicolon (a ++ more rest) ≡ a ∷ rest
unfolding all_checked more
tokens-join a [] h =
    let first : check_address a ≡ true = ground arith in
    ap (tokens semicolon) (append-nil a) ∙ tokens-one semicolon a (check_address-absent a first)
tokens-join a (b ∷ rest) h =
    let first : check_address a ≡ true = ground arith in
    let later : all_checked (b ∷ rest) ≡ true = ground arith in
    tokens-append semicolon a (b ++ more rest) (check_address-absent a first)
    ∙ ap {B = List (List ℕ)} (λ ts. a ∷ ts) (tokens-join b rest later)

-- shardcache_node_create, of a label without a colon and of at least one address, each of which passes
-- the test of addresses: shardcache_node_create_from_string makes the same node of its string.
pub create_from_string-node_create :
    (label a : List ℕ) (rest : List (List ℕ))
    → elem colon label ≡ false
    → all_checked (a ∷ rest) ≡ true
    → (d : Description) × (node_create label (a ∷ rest) ≡ some d)
      × (create_from_string d.string ≡ some d)
      × (d.label ≡ label)
      × (d.address ≡ a ∷ rest)
unfolding create_from_string described_by join
create_from_string-node_create label a rest bare checked =
    let d = described label (a ∷ rest) in
    let read : described_by d.string (label, some (a ++ more rest)) ≡ some d =
      rw (tokens-join a rest checked, checked) refl in
    (
      d,
      node_create-described label (a ∷ rest),
      ap (described_by d.string) (strsep-append colon label (a ++ more rest) bare) ∙ read,
      refl,
      refl,
    )
