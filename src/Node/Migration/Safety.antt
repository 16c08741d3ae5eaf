-- ===== src/Node/Migration/Safety.antt =====
-- The thread of a migration in src/shardcache.c removes only what another node has taken.
use libgroupcache.Base.{
  ℕ, Bool, true, false, ◌&&◌, Bool-cases, List, [], ◌∷◌, length, All, ◌==◌, if◌then◌else◌, ◌≡◌,
  refl, sym, ap, subst, inl, inr, ℤ, pos,
}
use libgroupcache.Node.State.{Action, Host, Node, Outcome, done}
use libgroupcache.Node.Ownership.{owner_of, is_migrated, test_ownership}
use libgroupcache.Node.Locks.{since, test_ownership-single, test_ownership-plain}
use libgroupcache.Node.Migration.{Scan, migrate_key, migrate_keys, remove_keys, migrate, expire_all}
use libgroupcache.Node.Migration.Scanned.{
  IsCopied, IsScanned, test_ownership-acted, migrate_key-IsScanned, turn, migrate_keys-IsScanned,
}

module _ {H : Host} where
  -- A test of the ownership before the thread of the migration has finished does not wait.
  test_ownership-returns :
      (a : Node H) (h : List Action) (key : List ℕ)
      → is_migrated a ≡ false
      → (b : Node H) × (mine : ℤ) × (name : List ℕ) × (test_ownership (since a h) key true
          ≡ done (b, mine, name))
  test_ownership-returns a h key no_end = elim (Bool-cases (length a.shards == 1)) [
    | inl one ↦ (since a h, pos 1, [], test_ownership-single (since a h) key true one)
    | inr more ↦ (
      since a h,
      (owner_of a true key).0,
      (owner_of a true key).1,
      test_ownership-plain (since a h) key true more no_end,
    )
  ]

  turn-returns :
      (a : Node H) (s : Scan H) (key : List ℕ) (keys : List (List ℕ)) (b : Node H) (mine : ℤ)
      (name : List ℕ)
      → (r : Outcome (Node H × ℤ × List ℕ)) → r ≡ done (b, mine, name)
      → ((u : Scan H)
          → u ≡ (migrate_key (record s { node = b }) mine name key).0
          → (t : Scan H) × (finished : Bool) × (migrate_keys keys u ≡ done (t, finished)))
      → (t : Scan H) × (finished : Bool) × (turn s key keys r ≡ done (t, finished))
  turn-returns a s key keys b mine name r e rec =
      elim (Bool-cases (migrate_key (record s { node = b }) mine name key).1) [
        | inl on ↦ (let (t, finished, q) = rec _ refl in (t, finished, rw (e, on) q))
        | inr off ↦ ((migrate_key (record s { node = b }) mine name key).0, false, rw (e, off) refl)
      ]

  migrate_keys-returns :
      (a : Node H) (keys : List (List ℕ)) (s : Scan H)
      → is_migrated a ≡ false
      → IsScanned a s
      → (t : Scan H) × (finished : Bool) × (migrate_keys keys s ≡ done (t, finished))
  unfolding migrate_keys
  migrate_keys-returns a [] s no_end i = (s, true, refl)
  migrate_keys-returns a (key ∷ keys) s no_end i =
      let (b, mine, name, q) = test_ownership-returns a s.node.actions key no_end in
      let (acted, owner) = test_ownership-acted a b s.node.actions key name mine q in
      let j =
        migrate_key-IsScanned a (record s { node = b }) mine name key
          (record { acted = acted; copied = i.copied; counted = i.counted }) owner in
      turn-returns a s key keys b mine name _
        (subst (λ (n : Node H). test_ownership n key true ≡ done (b, mine, name)) (sym i.acted) q)
        (λ u e. migrate_keys-returns a keys u no_end (subst (IsScanned a) (sym e) j))

  -- The thread of a migration that has not finished yet comes to an end. Each key that it will delete
  -- had a value in the storage, belongs to another node in the migration's ring, and that node answered
  -- 0 to a set of the value. They are as many as it counts as migrated, and they are removed from the
  -- storage if the loop came to its end and the storage has a remove; else the storage is as before.
  pub migrate-IsSafe :
      (a : Node H) (index : List (List ℕ))
      → is_migrated a ≡ false
      → (s : Scan H) × (finished : Bool) × (migrate a index ≡ done (s, finished))
        × All (IsCopied a) s.to_delete
        × (length s.to_delete ≡ s.migrated)
        × (s.node.storage
            ≡ (if finished && a.has_remove then remove_keys H a.storage s.to_delete else a.storage))
  unfolding migrate
  migrate-IsSafe a index no_end =
      let s0 : Scan H = record {
        node = a;
        migrated = 0;
        scanned = 0;
        errors = 0;
        to_delete = [];
      } in
      let i0 : IsScanned a s0 = record { acted = refl; copied = tt; counted = refl } in
      let (t, finished, q) = migrate_keys-returns a index s0 no_end i0 in
      let i = migrate_keys-IsScanned a index s0 t finished i0 q in
      let kept : t.node.storage ≡ a.storage = ap (λ (n : Node H). n.storage) i.acted in
      let same : t.node.has_remove ≡ a.has_remove = ap (λ (n : Node H). n.has_remove) i.acted in
      (
        record t {
          node = record t.node {
            storage =
                if finished && t.node.has_remove
                then remove_keys H t.node.storage t.to_delete
                else t.node.storage;
            volatile_storage = if finished then expire_all t.node else t.node.volatile_storage;
            migration_done = true;
          };
        },
        finished,
        rw q refl,
        i.copied,
        i.counted,
        rw (kept, same) refl,
      )
