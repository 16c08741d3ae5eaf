-- ===== src/Node/Migration.antt =====
-- Migrations of src/shardcache.c: shardcache_set_migration_continuum, shardcache_migration_begin with
-- the thread that it starts, shardcache_migration_abort and shardcache_migration_end.
pub mod Scanned
pub mod Safety
pub mod Bounds
use libgroupcache.Base.{
  ℕ, zero, suc, ◌+◌, Bool, true, false, not, ◌&&◌, ◌||◌, Option, none, some, List, [], ◌∷◌, ◌++◌,
  length, ltb, ◌==◌, if◌then◌else◌, ℤ, pos, negsuc, minus_one,
}
use mathlib.Core.Option.{map}
use libgroupcache.Node.State.{
  Table, VolatileObject, Command, send_set, Host, Node, Outcome, stuck, done, ◌>>=◌, act, to_peer,
}
use libgroupcache.Node.Ownership.{same_label, has_label, test_ownership, node_select}
use libgroupcache.Node.Commands.{is_zero}

-- Whether every label of the first list is in the second.
unfoldable pub all_in : List (List ℕ) → List (List ℕ) → Bool
all_in [] ys = true
all_in (x ∷ xs) ys = if has_label x ys then all_in xs ys else false

-- shardcache_check_migration_continuum: whether a request for these nodes is ignored.
unfoldable pub check_continuum : List (List ℕ) → List (List ℕ) → Bool
check_continuum nodes shards = (length nodes == length shards) && all_in nodes shards

-- The nodes that shardcache_migration_begin_internal tells of the migration. For each shard but its
-- own it takes the node of the same index, which may be past the end of `nodes`: none.
unfoldable pub told_nodes : List ℕ → List (List ℕ) → List (List ℕ) → Option (List (List ℕ))
told_nodes me [] nodes = some []
told_nodes me (s ∷ shards) [] = if same_label s me then told_nodes me shards [] else none
told_nodes me (s ∷ shards) (n ∷ nodes) =
    let rest = told_nodes me shards nodes in
    if same_label s me then rest else elim rest [ none ↦ none | some ns ↦ some (n ∷ ns) ]

-- The counters of the thread of a migration, and the keys that it will delete.
pub record Scan (H : Host) : Type 0 where
  pub node : Node H
  pub migrated : ℕ
  pub scanned : ℕ
  pub errors : ℕ
  pub to_delete : List (List ℕ)

unfoldable pub remove_keys : (H : Host) → H.Store → List (List ℕ) → H.Store
remove_keys H st [] = st
remove_keys H st (key ∷ keys) = remove_keys H (H.remove st key).0 keys

module _ {H : Host} where
  -- shardcache_set_migration_continuum
  unfoldable pub set_continuum : Node H → List (List ℕ) → Node H × ℤ
  set_continuum a nodes = elim a.migration [
    | some r ↦ (a, minus_one)
    | none ↦
        if check_continuum nodes a.shards
        then (a, minus_one)
        else (record a { migration = some (H.ring nodes, nodes); migration_done = false }, pos 0)
  ]

  -- shardcache_migration_abort_internal
  unfoldable pub migration_abort : Node H → Node H × ℤ
  migration_abort a =
      (record a { migration = none }, elim a.migration [ none ↦ minus_one | some r ↦ pos 0 ])

  -- shardcache_migration_end_internal, with the lock free
  unfoldable pub migration_end : Node H → Node H × ℤ
  migration_end a = elim a.migration [
    | none ↦ (record a { migration_done = false }, minus_one)
    | some (r, shards) ↦
        (record a { chash = r; shards = shards; migration = none; migration_done = false }, pos 0)
  ]

  abbrev pub failed : Scan H → Scan H
  failed s = record s { scanned = s.scanned + 1; errors = s.errors + 1 }

  -- A value goes to the owner that the migration's ring has for its key, to expire from its cache after the time that is configured.
  unfoldable pub copy_item : Scan H → List ℕ → List ℕ → List ℕ → Scan H
  copy_item s name key value =
      let c = send_set key value 0 s.node.expire_time in
      let b = record s { node = act (to_peer name c) s.node } in
      if not (node_select s.node name)
      then failed s
      else if is_zero (H.peer s.node.actions name c)
      then record b {
        scanned = s.scanned + 1;
        migrated = s.migrated + 1;
        to_delete = s.to_delete ++ key ∷ [];
      }
      else failed b

  -- What the thread does with a key of the storage's index, by the owner in the migration's ring;
  -- false ends the loop.
  unfoldable pub migrate_key : Scan H → ℤ → List ℕ → List ℕ → Scan H × Bool
  migrate_key s mine name key =
      let (rc, found) = H.fetch s.node.storage key in
      elim mine [
        | negsuc n ↦ (record s { errors = s.errors + 1 }, false)
        | pos zero ↦ (
          elim rc [
            | negsuc zero ↦ failed s
            | _ ↦ elim found [
              | none ↦ record s { scanned = s.scanned + 1 }
              | some value ↦ copy_item s name key value
            ]
          ],
          true,
        )
        | pos (suc n) ↦ (record s { scanned = s.scanned + 1 }, true)
      ]

  -- The loop over the index; true if it was not aborted.
  unfoldable pub migrate_keys : List (List ℕ) → Scan H → Outcome (Scan H × Bool)
  migrate_keys [] s = done (s, true)
  migrate_keys (key ∷ keys) s = do
    (b, mine, name) ← test_ownership s.node key true
    let (t, goes_on) = migrate_key (record s { node = b }) mine name key
    (if goes_on then migrate_keys keys t else done (t, false))

  -- expire_migrated. The thread runs it before the migration is done, so that the test does not wait.
  unfoldable pub expire_migrated : Outcome (Node H × ℤ × List ℕ) → VolatileObject → VolatileObject
  expire_migrated stuck v = v
  expire_migrated (done (b, pos zero, name)) v = record v { expire = 0 }
  expire_migrated (done (b, pos (suc n), name)) v = v
  expire_migrated (done (b, negsuc n, name)) v = v

  abbrev pub expire_all : Node H → Table VolatileObject
  expire_all a key = map (expire_migrated (test_ownership a key true)) (a.volatile_storage key)

  -- migrate, on the keys of the storage's index: what was copied is removed, if the loop came to its
  -- end.
  unfoldable pub migrate : Node H → List (List ℕ) → Outcome (Scan H × Bool)
  migrate a index = do
    (s, finished) ←
        migrate_keys index
          (record { node = a; migrated = 0; scanned = 0; errors = 0; to_delete = [] })
    let st =
        if finished && s.node.has_remove
        then remove_keys H s.node.storage s.to_delete
        else s.node.storage
    let vs = if finished then expire_all s.node else s.node.volatile_storage
    done (
      record s {
        node = record s.node { storage = st; volatile_storage = vs; migration_done = true };
      },
      finished,
    )
