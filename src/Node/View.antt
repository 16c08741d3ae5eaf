-- ===== src/Node/View.antt =====
-- What readers see of the values of src/shardcache.c: a map from keys to values, which its commands
-- should update.
pub mod Sets
pub mod Deletes
use libgroupcache.Base.{
  ℕ, suc, ◌≤◌, Bool, true, false, not, ◌&&◌, ◌||◌, Option, none, some, Option-cases, Bool-cases,
  List, length, take, take-length, ◌==◌, if◌then◌else◌, ◌≡◌, ◌≢◌, refl, sym, ap, ◌∙◌, inl, inr,
  arith, ℤ, pos, minus_one,
}
use libgroupcache.Node.State.{
  Table, put, put-same, put-other, cut-same, cut-other, VolatileObject, Host, Node, done,
}
use libgroupcache.Node.Ownership.{is_mine}
use libgroupcache.Node.Volatile.{
  set_mode, cas_mode, remove_stored, new_volatile, replace_volatile, set_volatile, store_volatile,
  store_plain, store_value,
}
use libgroupcache.Node.Commands.{
  tell, set_internal, delete_value, delete_mine, del_internal, value_of,
}

-- The documented behaviour of a storage module: a value stored with code 0 is fetched, one removed
-- with code 0 is not, and other keys are as they were.
pub record HostLaws (H : Host) : Type 0 where
  pub fetch_store :
      (s : H.Store) (k v : List ℕ)
      → (H.store s k v 0).1 ≡ pos 0
      → (H.fetch (H.store s k v 0).0 k).1 ≡ some v
  pub fetch_store_other :
      (s : H.Store) (k j v : List ℕ) → j ≢ k → (H.fetch (H.store s k v 0).0 j).1 ≡ (H.fetch s j).1
  pub fetch_remove :
      (s : H.Store) (k : List ℕ) → (H.remove s k).1 ≡ pos 0 → (H.fetch (H.remove s k).0 k).1 ≡ none
  pub fetch_remove_other :
      (s : H.Store) (k j : List ℕ) → j ≢ k → (H.fetch (H.remove s k).0 j).1 ≡ (H.fetch s j).1

module _ {H : Host} where
  abbrev pub stored_of : Node H → List ℕ → Option (List ℕ)
  stored_of a key = if a.use_persistent_storage then (H.fetch a.storage key).1 else none

  pub value_of-volatile :
      (a : Node H) (key : List ℕ) (v : VolatileObject)
      → a.volatile_storage key ≡ some v
      → (v.dlen == 0) ≡ false
      → value_of a key ≡ some (take v.dlen v.content)
  unfolding value_of
  value_of-volatile a key v h n = rw (h, value_of) (rw n refl)

  pub value_of-stored :
      (a : Node H) (key : List ℕ) → a.volatile_storage key ≡ none → value_of a key ≡ stored_of a key
  unfolding value_of
  value_of-stored a key h = rw (h, value_of) refl

  pub value_of-empty :
      (a : Node H) (key : List ℕ) (v : VolatileObject)
      → a.volatile_storage key ≡ some v
      → (v.dlen == 0) ≡ true
      → value_of a key ≡ stored_of a key
  unfolding value_of
  value_of-empty a key v h z = rw (h, value_of) (rw z refl)

  -- Readers see the two stores of values, and nothing else.
  pub value_of-congr :
      (a b : Node H) (key : List ℕ)
      → a.volatile_storage key ≡ b.volatile_storage key
      → stored_of a key ≡ stored_of b key
      → value_of a key ≡ value_of b key
  unfolding value_of
  value_of-congr a b key v s = elim (Option-cases (b.volatile_storage key)) [
    | inl n ↦ value_of-stored a key (v ∙ n) ∙ s ∙ sym (value_of-stored b key n)
    | inr (o, n) ↦ elim (Bool-cases (o.dlen == 0)) [
      | inr z ↦ value_of-volatile a key o (v ∙ n) z ∙ sym (value_of-volatile b key o n z)
      | inl z ↦ rw (v ∙ n, n, value_of) (rw z s)
    ]
  ]

  -- A map updated at one key: what a set is to do.
  pub record Puts (a b : Node H) (key value : List ℕ) : Type 0 where
    pub here : value_of b key ≡ some value
    pub others : (j : List ℕ) → j ≢ key → value_of b j ≡ value_of a j

  pub record Removes (a b : Node H) (key : List ℕ) : Type 0 where
    pub here : value_of b key ≡ none
    pub others : (j : List ℕ) → j ≢ key → value_of b j ≡ value_of a j

  pub remove_stored-other :
      (L : HostLaws H) (a : Node H) (key j : List ℕ)
      → j ≢ key
      → stored_of (remove_stored key a) j ≡ stored_of a j
  remove_stored-other L a key j n = elim (Bool-cases (a.use_persistent_storage && a.has_remove)) [
    | inl t ↦ rw t (rw (L.fetch_remove_other a.storage key j n) refl)
    | inr f ↦ rw f refl
  ]
