-- ===== src/Node/Timers.antt =====
-- Values of src/shardcache.c that expire: from the command that stores them to the timer.
use libgroupcache.Base.{
  ℕ, ◌≤◌, Bool, true, false, not, ◌||◌, none, some, List, [], length, ◌==◌, ◌≡◌, refl, ap, ◌∙◌,
}
use libgroupcache.Node.State.{Table, ExpireJob, Host, Node}
use libgroupcache.Node.Volatile.{
  set_mode, remove_stored, set_volatile, store_volatile, store_plain, store_value,
}
use libgroupcache.Node.Expiry.{
  run_each, run_jobs, set_volatile-jobs, set_volatile-timeouts, expire_key_cb, expire_key_cb-gone,
}
use libgroupcache.Node.View.{HostLaws, Puts}
use libgroupcache.Node.View.Sets.{set_volatile-Puts}

module _ {H : Host} where
  -- shardcache_store without an expiry, where no storage is in use, of a key whose earlier value has a
  -- timer, while the expirer has no jobs: the new value is in place, and no job takes the timer away, so
  -- that its end takes the new value away.
  pub store_value-old_timer :
      (L : HostLaws H) (a : Node H) (key value : List ℕ) (e : ℕ) (replica : Bool)
      → a.use_persistent_storage ≡ false
      → a.volatile_timeouts key ≡ some e
      → a.jobs ≡ []
      → 1 ≤ length value
      → let b = (store_value a key value none 0 set_mode replica).0 in
        Puts a b key value × ((expire_key_cb key true (run_jobs b)).volatile_storage key ≡ none)
  unfolding run_jobs run_each store_value store_plain store_volatile
  store_value-old_timer L a key value e replica memory timer idle one =
      let c = set_volatile (remove_stored key a) key value 0 replica in
      let queue : c.jobs ≡ [] =
        set_volatile-jobs (remove_stored key a) key value 0 replica ∙ idle in
      let goes : (not a.use_persistent_storage || (not a.has_store || not (0 == 0))) ≡ true =
        rw memory refl in
      let kept : c.volatile_timeouts key ≡ some e =
        ap (λ (t : Table ℕ). t key)
          (set_volatile-timeouts (remove_stored key a) key value 0 replica)
        ∙ timer in
      rw goes (
        set_volatile-Puts L a key value 0 replica one,
        expire_key_cb-gone (run_jobs c) key e (
            ap
              (λ (js : List ExpireJob).
                (run_each js (record c { jobs = [] })).volatile_timeouts key)
              queue
            ∙ kept),
      )
