-- ===== src/Node/Commands.antt =====
-- The commands of src/shardcache.c on one key: shardcache_set_internal with shardcache_set,
-- shardcache_add and shardcache_cas, shardcache_del_internal, shardcache_exists. The calls have a
-- key and a value.
use libgroupcache.Base.{
  ℕ, zero, Bool, true, false, not, ◌&&◌, ◌||◌, Option, none, some, List, [], length, take, ◌==◌,
  if◌then◌else◌, ℤ, pos, minus_one,
}
use libgroupcache.Node.State.{
  cut, VolatileObject, unschedule, Command, send_set, send_add, send_cas, send_delete, send_exists,
  Host, Node, Outcome, done, ◌>>=◌, act, arc_remove, to_peer, called_back,
}
use libgroupcache.Node.Ownership.{is_mine, node_select}
use libgroupcache.Node.Volatile.{
  set_mode, add_mode, is_some, refresh, evict_elsewhere, queue_job, shrink_table, remove_stored,
  store_value,
}

-- The mode that shardcache_set_internal gives to shardcache_store.
abbrev pub store_mode : ℕ → ℕ
store_mode mode = if mode == add_mode then 1 else 0

abbrev pub is_zero : ℤ → Bool
is_zero (pos zero) = true
is_zero _ = false

-- What a set in this mode sends to a peer.
abbrev pub set_command : List ℕ → List ℕ → Option (List ℕ) → ℕ → ℕ → ℕ → Command
set_command key value prev expire cexpire mode =
    if mode == set_mode
    then send_set key value expire cexpire
    else if mode == add_mode
    then send_add key value expire cexpire
    else send_cas key (elim prev [ none ↦ [] | some p ↦ p ]) value expire cexpire

module _ {H : Host} where
  -- The caller's callback, if there is one.
  abbrev pub tell : Bool → ℤ → Node H × ℤ → Node H × ℤ
  tell cb code (a, rc) = if cb then (act (called_back code) a, rc) else (a, rc)

  -- The fallback of a set that no peer took: a storage that all nodes share.
  abbrev pub store_global :
      Node H → ℤ → List ℕ → List ℕ → Option (List ℕ) → ℕ → ℕ → Bool → Node H × ℤ
  store_global a rc key value prev expire mode replica =
      if a.use_persistent_storage && a.global
      then store_value a key value prev expire (store_mode mode) replica
      else (a, rc)

  -- What follows the answer of a peer, or of the shared storage.
  abbrev pub refresh_if : List ℕ → Node H × ℤ → Node H × ℤ
  refresh_if key (a, rc) = if is_zero rc then (refresh key a, rc) else (a, rc)

  -- A set whose key belongs to a peer.
  unfoldable pub forward_set :
      Node H → List ℕ → List ℕ → List ℕ → Option (List ℕ) → ℕ → ℕ → ℕ → Bool → Bool → Node H × ℤ
  forward_set a name key value prev expire cexpire mode replica cb =
      let c = set_command key value prev expire cexpire mode in
      let b = act (to_peer name c) a in
      let rc = H.peer a.actions name c in
      let fallen = store_global a minus_one key value prev expire mode replica in
      let fallen' = refresh_if key (store_global b rc key value prev expire mode replica) in
      if not (node_select a name)
      then tell cb fallen.1 fallen
      else if not (is_zero rc)
      then tell cb fallen'.1 fallen'
      else if cb
      then refresh_if key (b, H.await b.actions)
      else refresh_if key (b, rc)

  -- shardcache_set_internal; `cb` says whether there is a callback.
  unfoldable pub set_internal :
      Node H → List ℕ → List ℕ → Option (List ℕ) → ℕ → ℕ → ℕ → Bool → Bool → Outcome (Node H × ℤ)
  set_internal a key value prev expire cexpire mode replica cb =
      if (length key == 0) || (length value == 0)
      then done (tell cb minus_one (a, minus_one))
      else (do
        (b, mine, name) ← is_mine a key
        done (
            if is_zero mine
            then (if length name == 0
                then tell cb minus_one (b, minus_one)
                else forward_set b name key value prev expire cexpire mode replica cb)
            else (let s = store_value b key value prev expire (store_mode mode) replica in
                tell cb s.1 s)))

  -- A delete of a key of this node: of its volatile value, or else of the stored one.
  unfoldable pub delete_value : Node H → List ℕ → Option VolatileObject → Node H × ℤ
  delete_value a key none = (
    remove_stored key a,
    if not a.use_persistent_storage
        then minus_one
        else if a.has_remove
        then (H.remove a.storage key).1
        else pos 0,
  )
  delete_value a key (some v) = (
    shrink_table v.dlen (
        queue_job (unschedule key true)
          (record a { volatile_storage = cut a.volatile_storage key })),
    pos 0,
  )

  unfoldable pub delete_mine : Node H → List ℕ → Bool → Node H × ℤ
  delete_mine a key replica =
      let (b, rc) = delete_value a key (a.volatile_storage key) in
      (if b.evict_on_delete then evict_elsewhere replica key (act (arc_remove key) b) else b, rc)

  -- A delete of a key of another node.
  unfoldable pub forward_delete : Node H → List ℕ → List ℕ → Bool → Node H × ℤ
  forward_delete a name key cb =
      let b = act (to_peer name (send_delete key)) a in
      let rc = H.peer a.actions name (send_delete key) in
      if not (node_select a name)
      then tell cb minus_one (a, minus_one)
      else if not cb
      then (b, rc)
      else if is_zero rc
      then (b, H.await b.actions)
      else tell cb minus_one (b, rc)

  -- shardcache_del_internal
  unfoldable pub del_internal : Node H → List ℕ → Bool → Bool → Outcome (Node H × ℤ)
  del_internal a key replica cb = do
    (b, mine, name) ← is_mine a key
    done (
        if not (is_zero mine)
        then (let d = delete_mine b key replica in tell cb d.1 d)
        else if replica
        then (b, minus_one)
        else forward_delete b name key cb)

  -- shardcache_exists, on a key of this node
  unfoldable pub exists_mine : Node H → List ℕ → ℤ
  exists_mine a key =
      if is_some (a.volatile_storage key)
      then pos 1
      else if a.use_persistent_storage && (a.has_exist && H.exist a.storage key)
      then pos 1
      else pos 0

  -- shardcache_exists
  unfoldable pub exists : Node H → List ℕ → Bool → Outcome (Node H × ℤ)
  exists a key cb = if length key == 0 then done (a, minus_one) else (do
    (b, mine, name) ← is_mine a key
    let c = act (to_peer name (send_exists key)) b
    let rc = H.peer b.actions name (send_exists key)
    let here = exists_mine b key
    done (
        if not (is_zero mine)
        then tell cb here (b, here)
        else if not (node_select b name)
        then tell cb minus_one (b, minus_one)
        else if cb && is_zero rc
        then (c, H.await c.actions)
        else (c, rc)))

  -- What arc_ops_fetch finds for a key of this node: a volatile value, if it has a byte, or else what
  -- the storage has.
  unfoldable pub value_of : Node H → List ℕ → Option (List ℕ)
  value_of a key =
      let stored = if a.use_persistent_storage then (H.fetch a.storage key).1 else none in
      elim (a.volatile_storage key) [
        | none ↦ stored
        | some v ↦ if v.dlen == 0 then stored else some (take v.dlen v.content)
      ]
