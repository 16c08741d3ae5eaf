-- ===== src/Arc/Lookup.antt =====
-- The cache's operations on keys in src/arc.c: arc_lookup_internal with arc_lookup and
-- arc_lookup_nofetch, arc_remove, arc_drop_resource, arc_load, and the references they take.
--
-- ops->init and ops->store write the part of an object that belongs to the caller, which no code
-- of arc.c reads. The lock spans no call of these functions; here each runs alone.
pub mod Sound
use libgroupcache.Base.{
  ℕ, zero, suc, ◌+◌, Bool, true, false, not, ◌||◌, Option, none, some, List, ℤ, pos, negsuc,
  minus_one, if◌then◌else◌, length, leb, ◌==◌,
}
use libgroupcache.Base.Words.{add64}
use libgroupcache.Arc.State.{
  HashTable, RefCall, create, retain, release, mru, mfu, is_at, Object, Cache, base_size, note,
  set_object,
}
use libgroupcache.Arc.Move.{Fetch, move}
use libgroupcache.Arc.Balance.{balance}

-- Whether a C int is not negative.
abbrev pub is_nonneg : ℤ → Bool
is_nonneg (pos n) = true
is_nonneg (negsuc n) = false

abbrev pub is_minus_one : ℤ → Bool
is_minus_one (pos n) = false
is_minus_one (negsuc n) = n == 0

module _ {H : HashTable} where
  -- arc_object_create: an object that no list holds, sized for its key and its payload. new_node
  -- makes the counter of its references.
  unfoldable pub object_create : List ℕ → Cache H → Cache H × ℕ
  object_create key a =
      let bare : Object = record {
        state = none;
        size = 0;
        key = key;
        async = false;
        locked = false;
      } in
      let obj = record bare { size = add64 (base_size bare) a.cos } in
      (note (create a.next) (set_object a.next obj (record a { next = suc a.next })), a.next)

  -- A key that is in the table. No result stands for a loop of arc_balance that does not end.
  unfoldable pub lookup_hit : Fetch → ℕ → Cache H → Option (Cache H × Option ℕ)
  lookup_hit fetch o a =
      let b = note (retain o) a in
      if not a.mode || not (is_at (a.objs o).state mfu)
      then (let (c, rc) = move fetch o (some mfu) b in
          if is_minus_one rc
          then some (c, none)
          else elim (balance fetch c) [ none ↦ none | some d ↦ some (d, some o) ])
      else some (b, some o)

  -- A new object that the table has taken.
  unfoldable pub lookup_stored : Fetch → ℕ → Cache H → Option (Cache H × Option ℕ)
  lookup_stored fetch o a =
      let (b, rc) = move fetch o (some mru) a in
      if is_nonneg rc
      then elim (balance fetch b) [ none ↦ none | some c ↦ some (c, some o) ]
      else some (note (release o) b, none)

  -- A key that is not in the table: `again` is the call of arc_lookup where another thread has
  -- stored the key in the meantime.
  unfoldable pub lookup_miss :
      Fetch
      → Bool
      → List ℕ
      → (Cache H → Option (Cache H × Option ℕ))
      → Cache H
      → Option (Cache H × Option ℕ)
  unfolding object_create lookup_stored
  lookup_miss fetch async key again a =
      let (b, o) = object_create key a in
      let c = set_object o (record (b.objs o) { async = async }) b in
      let d = note (retain o) c in
      let (hash', rc) = H.set_if_not_exists d.hash key o in
      let e = record d { hash = hash' } in
      if rc == 0
      then lookup_stored fetch o e
      else if rc == 1
      then again (note (release o) (note (release o) e))
      else some (note (release o) (note (release o) e), none)

  -- arc_lookup_internal; the fuel bounds the calls of itself.
  unfoldable pub lookup_internal :
      ℕ → Fetch → Bool → Bool → List ℕ → Cache H → Option (Cache H × Option ℕ)
  unfolding lookup_hit lookup_miss
  lookup_internal zero fetch async fetches key a = none
  lookup_internal (suc fuel) fetch async fetches key a = elim (H.get a.hash key) [
    | some o ↦ lookup_hit fetch o a
    | none ↦ elim fetches [
      | false ↦ some (a, none)
      | true ↦ lookup_miss fetch async key (lookup_internal fuel fetch async true key) a
    ]
  ]

  -- arc_lookup_nofetch, arc_lookup
  abbrev pub lookup_nofetch : Fetch → List ℕ → Cache H → Option (Cache H × Option ℕ)
  lookup_nofetch fetch = lookup_internal 1 fetch false false

  abbrev pub lookup : ℕ → Fetch → Bool → List ℕ → Cache H → Option (Cache H × Option ℕ)
  lookup fuel fetch async = lookup_internal fuel fetch async true

  -- arc_retain_resource, arc_release_resource
  pub retain_resource : ℕ → Cache H → Cache H
  retain_resource o a = note (retain o) a

  pub release_resource : ℕ → Cache H → Cache H
  release_resource o a = note (release o) a

  -- arc_drop_resource
  unfoldable pub drop_resource : Fetch → ℕ → Cache H → Cache H
  drop_resource fetch o a = note (release o) (move fetch o none a).0

  -- arc_remove
  unfoldable pub remove : Fetch → List ℕ → Cache H → Cache H
  remove fetch key a = elim (H.get a.hash key) [
    | none ↦ a
    | some o ↦ note (release o) (move fetch o none (note (retain o) a)).0
  ]

  -- arc_load, which ops->store gives the value; an object that is there is not retained.
  unfoldable pub load : ℕ → List ℕ → Cache H → Option (Cache H × ℤ)
  unfolding object_create
  load zero key a = none
  load (suc fuel) key a = elim (H.get a.hash key) [
    | some o ↦ some (a, pos 1)
    | none ↦
        let (b, o) = object_create key a in
        let c = note (retain o) b in
        let (hash', rc) = H.set_if_not_exists c.hash key o in
        let d = record c { hash = hash' } in
        let retried = load fuel key (note (release o) (note (release o) d)) in
        if rc == 0
        then some (note (release o) d, pos 0)
        else if rc == 1
        then retried
        else some (note (release o) (note (release o) d), minus_one)
  ]
