-- ===== src/Arc/Books.antt =====
-- The books of the cache of src/arc.c: who refers to an object, and what the hash table holds.
pub mod Kept
pub mod Move
pub mod Balance
pub mod Create
use libgroupcache.Base.{
  ℕ, suc, ◌+◌, ◌≤◌, ◌<◌, ◌≡◌, ◌≢◌, Bool, true, false, Option, none, some, List, [], ◌∷◌, ◌==◌,
  if◌then◌else◌,
}
use libgroupcache.Arc.State.{HashTable, RefCall, create, retain, release, Cache}

-- What src/arc.c relies on of the hash table: a value goes in where there is none, and
-- ht_delete_if_equals removes the value under a key exactly if it is the one given.
pub record HashLaws (H : HashTable) : Type 0 where
  pub set_present :
      (t : H.Table) (k : List ℕ) (o : ℕ) {v : ℕ}
      → H.get t k ≡ some v
      → H.set_if_not_exists t k o ≡ (t, 1)
  pub set_absent :
      (t : H.Table) (k : List ℕ) (o : ℕ) → H.get t k ≡ none → (H.set_if_not_exists t k o).1 ≢ 1
  pub set_stored :
      (t : H.Table) (k : List ℕ) (o : ℕ)
      → (H.set_if_not_exists t k o).1 ≡ 0
      → H.get (H.set_if_not_exists t k o).0 k ≡ some o
  pub set_others :
      (t : H.Table) (k : List ℕ) (o : ℕ) (j : List ℕ)
      → j ≢ k
      → H.get (H.set_if_not_exists t k o).0 j ≡ H.get t j
  pub set_failed :
      (t : H.Table) (k : List ℕ) (o : ℕ)
      → (H.set_if_not_exists t k o).1 ≢ 0
      → (H.set_if_not_exists t k o).0 ≡ t
  pub delete_equal :
      (t : H.Table) (k : List ℕ) (o : ℕ)
      → H.get t k ≡ some o
      → ((H.delete_if_equals t k o).1 ≡ true) × (H.get (H.delete_if_equals t k o).0 k ≡ none)
  pub delete_other :
      (t : H.Table) (k : List ℕ) (o : ℕ)
      → H.get t k ≢ some o
      → H.delete_if_equals t k o ≡ (t, false)
  pub delete_others :
      (t : H.Table) (k : List ℕ) (o : ℕ) (j : List ℕ)
      → j ≢ k
      → H.get (H.delete_if_equals t k o).0 j ≡ H.get t j

-- How often an object's references were taken, and given back.
abbrev pub taken : ℕ → List RefCall → ℕ
taken x [] = 0
taken x (create o ∷ rs) = (if x == o then 1 else 0) + taken x rs
taken x (retain o ∷ rs) = (if x == o then 1 else 0) + taken x rs
taken x (release o ∷ rs) = taken x rs

abbrev pub given : ℕ → List RefCall → ℕ
given x [] = 0
given x (create o ∷ rs) = given x rs
given x (retain o ∷ rs) = given x rs
given x (release o ∷ rs) = (if x == o then 1 else 0) + given x rs

abbrev pub names : ℕ → Option ℕ → Bool
names x none = false
names x (some o) = x == o

-- The table's own reference to an object, under the object's key.
abbrev pub in_table : {H : HashTable} → Cache H → ℕ → ℕ
in_table {H} a x = if names x (H.get a.hash (a.objs x).key) then 1 else 0

-- `held x` counts the references to `x` that callers hold.
pub record Books {H : HashTable} (a : Cache H) (held : ℕ → ℕ) : Type 0 where
  pub owned : (k : List ℕ) (o : ℕ) → H.get a.hash k ≡ some o → (o < a.next) × ((a.objs o).key ≡ k)
  pub balanced : (x : ℕ) → taken x a.refs ≡ given x a.refs + in_table a x + held x
  pub fresh : (x : ℕ) → a.next ≤ x → ((a.objs x).state ≡ none) × (held x ≡ 0) × (taken x a.refs ≡ 0)
