-- ===== src/Node/Expiry.antt =====
-- The expirer of src/shardcache.c: its queue of jobs, shardcache_expire_keys, and the timers,
-- shardcache_expire_key_cb. The event loop of libiomux schedules what it is asked to.
use libgroupcache.Base.{
  ℕ, ◌+◌, Bool, true, false, Option, none, some, Option-cases, List, [], ◌∷◌, ◌++◌, length, ◌==◌,
  if◌then◌else◌, ◌≡◌, refl, inl, inr, keys_discrete,
}
use mathlib.Core.Logic.{if_pos}
use libgroupcache.Node.State.{
  Table, put, cut, VolatileObject, ExpireJob, schedule, unschedule, Host, Node, act, arc_remove,
}
use libgroupcache.Node.Volatile.{shrink_table, replace_volatile, set_volatile}

module _ {H : Host} where
  abbrev pub with_timeouts : Bool → (Table ℕ → Table ℕ) → Node H → Node H
  with_timeouts true f a = record a { volatile_timeouts = f a.volatile_timeouts }
  with_timeouts false f a = record a { cache_timeouts = f a.cache_timeouts }

  -- A job of shardcache_expire_keys: a timer is set, in place of an earlier one, or taken away.
  unfoldable pub run_job : ExpireJob → Node H → Node H
  run_job (schedule key expire is_volatile) = with_timeouts is_volatile (λ t. put t key expire)
  run_job (unschedule key is_volatile) = with_timeouts is_volatile (λ t. cut t key)

  unfoldable pub run_each : List ExpireJob → Node H → Node H
  run_each [] a = a
  run_each (j ∷ js) a = run_each js (run_job j a)

  -- A round of shardcache_expire_keys: all jobs in the queue, the oldest first.
  unfoldable pub run_jobs : Node H → Node H
  run_jobs a = run_each a.jobs (record a { jobs = [] })

  -- The end of a timer that was still noted.
  abbrev pub expired : List ℕ → Node H → Node H
  expired key a = act (arc_remove key) (record a { expires = a.expires + 1 })

  -- A volatile value goes, if there is one.
  unfoldable pub drop_volatile : Option VolatileObject → List ℕ → Node H → Node H
  drop_volatile none key a = a
  drop_volatile (some v) key a =
      shrink_table v.dlen (record a { volatile_storage = cut a.volatile_storage key })

  -- shardcache_expire_key_cb, for a timer of a volatile value or of one in the ARC cache
  unfoldable pub expire_key_cb : List ℕ → Bool → Node H → Node H
  expire_key_cb key true a = elim (a.volatile_timeouts key) [
    | none ↦ a
    | some e ↦ expired key (
        drop_volatile (a.volatile_storage key) key
          (record a { volatile_timeouts = cut a.volatile_timeouts key }))
  ]
  expire_key_cb key false a = elim (a.cache_timeouts key) [
    | none ↦ a
    | some e ↦ expired key (record a { cache_timeouts = cut a.cache_timeouts key })
  ]

  drop_volatile-gone :
      (o : Option VolatileObject) (key : List ℕ) (a : Node H)
      → a.volatile_storage key ≡ o
      → (drop_volatile o key a).volatile_storage key ≡ none
  unfolding drop_volatile
  drop_volatile-gone none key a h = h
  drop_volatile-gone (some v) key a h = if_pos (keys_discrete key key) refl _ _

  -- A timer that is noted for the key takes its volatile value away.
  pub expire_key_cb-gone :
      (a : Node H) (key : List ℕ) (e : ℕ)
      → a.volatile_timeouts key ≡ some e
      → (expire_key_cb key true a).volatile_storage key ≡ none
  unfolding expire_key_cb
  expire_key_cb-gone a key e h =
      rw (h, expire_key_cb) (drop_volatile-gone (a.volatile_storage key) key _ refl)

  -- Jobs do not touch the volatile values; one that is last in the queue decides its timer.
  pub run_each-last :
      (js : List ExpireJob) (a : Node H) (key : List ℕ) (e : ℕ)
      → (run_each (js ++ schedule key e true ∷ []) a).volatile_timeouts key ≡ some e
  unfolding run_each run_job
  run_each-last [] a key e = if_pos (keys_discrete key key) refl _ _
  run_each-last (j ∷ js) a key e = run_each-last js (run_job j a) key e

  replace_volatile-jobs :
      (o : Option VolatileObject) (key : List ℕ) (vlen : ℕ) (replica : Bool) (a : Node H)
      → (replace_volatile o key vlen replica a).jobs ≡ a.jobs
  unfolding replace_volatile
  replace_volatile-jobs none key vlen replica a = refl
  replace_volatile-jobs (some v) key vlen replica a = refl

  pub set_volatile-jobs :
      (a : Node H) (key value : List ℕ) (expire : ℕ) (replica : Bool)
      → (set_volatile a key value expire replica).jobs
        ≡ (if expire == 0 then a.jobs else a.jobs ++ schedule key expire true ∷ [])
  unfolding set_volatile
  set_volatile-jobs a key value expire replica =
      rw (replace_volatile-jobs (a.volatile_storage key) key (length value) replica _) refl

  pub set_volatile-timeouts :
      (a : Node H) (key value : List ℕ) (expire : ℕ) (replica : Bool)
      → (set_volatile a key value expire replica).volatile_timeouts ≡ a.volatile_timeouts
  unfolding set_volatile replace_volatile
  set_volatile-timeouts a key value expire replica = elim (Option-cases (a.volatile_storage key)) [
    | inl n ↦ rw (n, replace_volatile) refl
    | inr (v, n) ↦ rw (n, replace_volatile) refl
  ]
