-- ===== src/Node/Volatile.antt =====
-- Values of src/shardcache.c: shardcache_store_volatile, shardcache_store, and the jobs that they give
-- to the expirer and the evictor.
use libgroupcache.Base.{
  ℕ, zero, ◌+◌, ◌-◌, Bool, true, false, not, ◌&&◌, ◌||◌, Option, none, some, List, [], ◌∷◌, ◌++◌,
  length, take, ltb, ◌==◌, if◌then◌else◌, ℤ, pos, minus_one, keys_discrete,
}
use mathlib.Core.Logic.{ite}
use libgroupcache.Base.Words.{add64, sub64}
use libgroupcache.Node.State.{
  put, VolatileObject, ExpireJob, schedule, Host, Node, act, arc_load, arc_remove, evict_job,
}

-- The modes of a store.
abbrev pub set_mode : ℕ
set_mode = 0

abbrev pub add_mode : ℕ
add_mode = 1

abbrev pub cas_mode : ℕ
cas_mode = 2

abbrev pub is_some {ℓ} : {A : Type ℓ} → Option A → Bool
is_some none = false
is_some (some x) = true

-- shardcache_cas_volatile_cb: the length is not written.
unfoldable pub cas_volatile_cb : VolatileObject → List ℕ → Option (List ℕ) → VolatileObject × Bool
cas_volatile_cb item value none = (item, false)
cas_volatile_cb item value (some prev) =
    ite (keys_discrete (take item.dlen item.content) prev) (record item { content = value }, true)
      (item, false)

module _ {H : Host} where
  -- The value goes to the ARC cache, or the key leaves it.
  abbrev pub refresh : List ℕ → Node H → Node H
  refresh key a = act (if a.cache_on_set then arc_load key else arc_remove key) a

  -- shardcache_commence_eviction, which a replica does not do.
  abbrev pub evict_elsewhere : Bool → List ℕ → Node H → Node H
  evict_elsewhere replica key a = record a {
    actions = if replica then a.actions else evict_job key ∷ a.actions;
  }

  abbrev pub queue_job : ExpireJob → Node H → Node H
  queue_job j a = record a { jobs = a.jobs ++ j ∷ [] }

  abbrev pub grow_table : ℕ → Node H → Node H
  grow_table n a = record a { table_size = add64 a.table_size n }

  abbrev pub shrink_table : ℕ → Node H → Node H
  shrink_table n a = record a { table_size = sub64 a.table_size n }

  -- The counter after a value of `vlen` bytes took the place of another.
  abbrev pub resize_table : ℕ → ℕ → Node H → Node H
  resize_table vlen old a = record a {
    table_size =
        if ltb old vlen then add64 a.table_size (vlen - old) else sub64 a.table_size (old - vlen);
  }

  -- storage.remove, where the storage is in use and has one.
  abbrev pub remove_stored : List ℕ → Node H → Node H
  remove_stored key a = record a {
    storage =
        if a.use_persistent_storage && a.has_remove then (H.remove a.storage key).0 else a.storage;
  }

  abbrev pub new_volatile : Node H → List ℕ → ℕ → VolatileObject
  new_volatile a value expire = record {
    content = value;
    dlen = length value;
    expire = if expire == 0 then 0 else a.now + expire;
  }

  -- The timer of a value that expires.
  abbrev pub schedule_value : List ℕ → ℕ → Node H → Node H
  schedule_value key expire a = record a {
    jobs = if expire == 0 then a.jobs else a.jobs ++ schedule key expire true ∷ [];
  }

  -- What ht_get_and_set put aside, and what follows.
  unfoldable pub replace_volatile : Option VolatileObject → List ℕ → ℕ → Bool → Node H → Node H
  replace_volatile none key vlen replica a = grow_table vlen a
  replace_volatile (some prev) key vlen replica a =
      evict_elsewhere replica key (refresh key (resize_table vlen prev.dlen a))

  -- A new value, in SET mode, in the table.
  unfoldable pub set_volatile : Node H → List ℕ → List ℕ → ℕ → Bool → Node H
  set_volatile a key value expire replica = schedule_value key expire (
      replace_volatile (a.volatile_storage key) key (length value) replica
        (record a { volatile_storage = put a.volatile_storage key (new_volatile a value expire) }))

  -- In ADD mode, for a key that is not there: ht_set_if_not_exists stores it.
  unfoldable pub add_volatile : Node H → List ℕ → List ℕ → ℕ → Node H
  add_volatile a key value expire = schedule_value key expire (
      grow_table (length value) (
        grow_table (length value) (record a {
          volatile_storage = put a.volatile_storage key (new_volatile a value expire);
        })))

  -- shardcache_store_volatile; `prev` is none for a null pointer.
  unfoldable pub store_volatile :
      Node H → List ℕ → List ℕ → Option (List ℕ) → ℕ → ℕ → Bool → Node H × ℤ
  store_volatile a key value prev expire mode replica =
      let b = remove_stored key a in
      let adds = (mode == add_mode) || ((mode == cas_mode) && not (is_some prev)) in
      let here = b.volatile_storage key in
      if adds
      then (if is_some here then (b, pos 1) else (add_volatile b key value expire, pos 0))
      else if mode == cas_mode
      then elim here [
        | none ↦ (set_volatile b key value expire replica, pos 0)
        | some item ↦
            let (item', matched) = cas_volatile_cb item value prev in
            (
              record b { volatile_storage = put b.volatile_storage key item' },
              if matched then pos 0 else pos 1,
            )
      ]
      else (set_volatile b key value expire replica, pos 0)

  -- shardcache_store in CAS mode on the storage, with a previous value.
  unfoldable pub cas_stored : Node H → List ℕ → List ℕ → List ℕ → Bool → Node H × ℤ
  cas_stored a key value prev replica =
      let (s, rc) = H.cas a.storage key prev value in
      let b = record a { storage = s } in
      if not a.has_cas
      then (a, minus_one)
      else elim rc [ pos zero ↦ (evict_elsewhere replica key b, pos 0) | r ↦ (b, r) ]

  -- shardcache_store in SET and ADD mode: values that expire are volatile, and so are all where the
  -- storage does not store.
  unfoldable pub store_plain :
      Node H → List ℕ → List ℕ → Option (List ℕ) → ℕ → ℕ → Bool → Node H × ℤ
  store_plain a key value prev expire mode replica =
      let (s, rc) = H.store a.storage key value mode in
      if not a.use_persistent_storage || (not a.has_store || not (expire == 0))
      then store_volatile a key value prev expire mode replica
      else (evict_elsewhere replica key (refresh key (record a { storage = s })), rc)

  -- shardcache_store
  unfoldable pub store_value :
      Node H → List ℕ → List ℕ → Option (List ℕ) → ℕ → ℕ → Bool → Node H × ℤ
  store_value a key value prev expire mode replica =
      if not (mode == cas_mode)
      then store_plain a key value prev expire mode replica
      else elim prev [
        | none ↦ store_plain a key value none expire add_mode replica
        | some p ↦
            if a.use_persistent_storage
            then cas_stored a key value p replica
            else store_plain a key value (some p) expire cas_mode replica
      ]
