-- ===== src/Arc/Tests/Table.antt =====
-- A hash table that keeps the laws src/arc.c relies on: a function from keys to values.
use Prim.Native.Nat.{ℕ}
use mathlib.Core.Logic.{ite, if_pos, if_neg}
use native.Mathlib.Decide.{ℕ_discrete}
use libgroupcache.Base.{
  ◌≡◌, ◌≢◌, refl, true, false, Bool, Option, none, some, List, arith, Option-cases, inl, inr,
}
use libgroupcache.Arc.State.{HashTable}
use libgroupcache.Arc.Books.{HashLaws}
use libgroupcache.Base.{keys_discrete}

abbrev pub Map : Type 0
Map = List ℕ → Option ℕ

abbrev write : Map → List ℕ → Option ℕ → Map
write t k v j = ite (keys_discrete j k) v (t j)

unfoldable pub put_new : Map → List ℕ → ℕ → Map × ℕ
put_new t k o = elim (t k) [ none ↦ (write t k (some o), 0) | some v ↦ (t, 1) ]

unfoldable pub cut_equal : Map → List ℕ → ℕ → Map × Bool
cut_equal t k o = elim (t k) [
  | none ↦ (t, false)
  | some v ↦ ite (ℕ_discrete v o) (write t k none, true) (t, false)
]

abbrev pub map_table : HashTable
map_table = record {
  Table = Map;
  empty = λ k. none;
  get = λ t k. t k;
  set_if_not_exists = put_new;
  delete_if_equals = cut_equal;
}

put_present : (t : Map) (k : List ℕ) (o : ℕ) {v : ℕ} → t k ≡ some v → put_new t k o ≡ (t, 1)
unfolding put_new
put_present t k o e = rw (e, put_new)

put_absent : (t : Map) (k : List ℕ) (o : ℕ) → t k ≡ none → put_new t k o ≡ (write t k (some o), 0)
unfolding put_new
put_absent t k o e = rw (e, put_new)

cut_found : (t : Map) (k : List ℕ) (o : ℕ) → t k ≡ some o → cut_equal t k o ≡ (write t k none, true)
unfolding cut_equal
cut_found t k o e = rw (e, cut_equal) (if_pos (ℕ_discrete o o) refl _ _)

cut_other : (t : Map) (k : List ℕ) (o : ℕ) → t k ≢ some o → cut_equal t k o ≡ (t, false)
unfolding cut_equal
cut_other t k o n = elim (Option-cases (t k)) [
  | inl e ↦ rw (e, cut_equal)
  | inr (v, e) ↦ rw (e, cut_equal) (if_neg (ℕ_discrete v o) (λ d. n (rw (e, d))) _ _)
]

write_self : (t : Map) (k : List ℕ) (v : Option ℕ) → write t k v k ≡ v
write_self t k v = if_pos (keys_discrete k k) refl _ _

write_ne : (t : Map) (k : List ℕ) (v : Option ℕ) (j : List ℕ) → j ≢ k → write t k v j ≡ t j
write_ne t k v j n = if_neg (keys_discrete j k) n _ _

dec_some : (a : Option ℕ) (o : ℕ) → Dec (a ≡ some o)
dec_some a o = option_discrete a (some o)
  where
    option_discrete : Discrete (Option ℕ)
    option_discrete = hlevel ℕ_discrete

pub map_laws : HashLaws map_table
map_laws = record {
  set_present = λ t k o e. put_present t k o e;
  set_absent = λ t k o e. rw (put_absent t k o e) (λ z. ground arith);
  set_stored = λ t k o z. elim (Option-cases (t k)) [
    | inl e ↦ rw (put_absent t k o e) (write_self t k (some o))
    | inr (v, e) ↦
        let z' : (put_new t k o).1 ≡ 1 = rw (put_present t k o e) in absurd (ground arith)
  ];
  set_others = λ t k o j n. elim (Option-cases (t k)) [
    | inl e ↦ rw (put_absent t k o e) (write_ne t k (some o) j n)
    | inr (v, e) ↦ rw (put_present t k o e)
  ];
  set_failed = λ t k o z. elim (Option-cases (t k)) [
    | inl e ↦ absurd (z (rw (put_absent t k o e)))
    | inr (v, e) ↦ rw (put_present t k o e)
  ];
  delete_equal = λ t k o e. rw (cut_found t k o e) (refl, write_self t k none);
  delete_other = λ t k o n. cut_other t k o n;
  delete_others = λ t k o j n. elim (dec_some (t k) o) [
    | yes e ↦ rw (cut_found t k o e) (write_ne t k none j n)
    | no e ↦ rw (cut_other t k o e)
  ];
}
