-- ===== src/Node/Locks.antt =====
-- The lock of a migration in src/shardcache.c: each way through shardcache_test_ownership_internal, and
-- the commands that go through it.
use libgroupcache.Base.{ℕ, Bool, true, false, List, [], ◌∷◌, length, ◌==◌, ◌≡◌, ◌≢◌, refl, ap, pos}
use libgroupcache.Node.State.{Action, Host, Node, Outcome, stuck, done, end_to_replicas}
use libgroupcache.Node.Ownership.{owner_of, is_migrated, end_migration, test_ownership}

from_done {ℓ} : {A : Type ℓ} → A → Outcome A → A
from_done a stuck = a
from_done a (done b) = b

pub done_inj {ℓ} : {A : Type ℓ} (a b : A) → done a ≡ done b → a ≡ b
unfolding from_done
done_inj a b e = ap (from_done a) e

pub stuck-ne-done {ℓ} : {A : Type ℓ} (a : A) → stuck ≢ done a
stuck-ne-done a = λ e. cc

module _ {H : Host} where
  -- The node with other actions behind it.
  abbrev pub since : Node H → List Action → Node H
  since a h = record a { actions = h }

  pub test_ownership-single :
      (a : Node H) (key : List ℕ) (m : Bool)
      → (length a.shards == 1) ≡ true
      → test_ownership a key m ≡ done (a, pos 1, [])
  unfolding test_ownership
  test_ownership-single a key m one = rw one refl

  pub test_ownership-plain :
      (a : Node H) (key : List ℕ) (m : Bool)
      → (length a.shards == 1) ≡ false
      → is_migrated a ≡ false
      → test_ownership a key m ≡ done (a, (owner_of a m key).0, (owner_of a m key).1)
  unfolding test_ownership
  test_ownership-plain a key m more no_end = rw (more, no_end) refl

  end_migration-told :
      (a : Node H)
      → a.replica ≡ true
      → end_migration a ≡ done (since a (end_to_replicas ∷ a.actions))
  unfolding end_migration
  end_migration-told a r = rw r refl

  end_migration-stuck : (a : Node H) → a.replica ≡ false → end_migration a ≡ stuck
  unfolding end_migration
  end_migration-stuck a r = rw r refl

  owner_of-since :
      (a : Node H) (h : List Action) (m : Bool) (key : List ℕ)
      → owner_of (since a h) m key ≡ owner_of a m key
  owner_of-since a h true key = refl
  owner_of-since a h false key = refl

  pub test_ownership-replica :
      (a : Node H) (key : List ℕ) (m : Bool)
      → (length a.shards == 1) ≡ false
      → is_migrated a ≡ true
      → a.replica ≡ true
      → test_ownership a key m
        ≡ done (since a (end_to_replicas ∷ a.actions), (owner_of a m key).0, (owner_of a m key).1)
  unfolding test_ownership
  test_ownership-replica a key m more ends r =
      rw (more, ends, end_migration-told a r)
        (rw (owner_of-since a (end_to_replicas ∷ a.actions) m key) refl)

  -- On a node with other than one shard and no replicas, each test of the ownership after the thread
  -- of a migration has finished waits for ever.
  pub test_ownership-stuck :
      (a : Node H) (key : List ℕ) (m : Bool)
      → (length a.shards == 1) ≡ false
      → is_migrated a ≡ true
      → a.replica ≡ false
      → test_ownership a key m ≡ stuck
  unfolding test_ownership
  test_ownership-stuck a key m more ends r = rw (more, ends, end_migration-stuck a r) refl
