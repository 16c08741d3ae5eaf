-- ===== src/Node/Migration/Bounds.antt =====
-- Migrations of src/shardcache.c whose lists of nodes are shorter, or have one node.
use libgroupcache.Base.{
  ℕ, suc, ◌+◌, ◌≤◌, Bool, true, false, none, List, [], ◌∷◌, ◌++◌, length, ◌==◌, ◌≡◌, refl, ap,
  Option-cases, inl, inr, ◌∙◌, if◌then◌else◌, arith,
}
use std.Path.{fun_ext}
use libgroupcache.Node.State.{Host, Node, Outcome, done}
use libgroupcache.Node.Ownership.{same_label}
use libgroupcache.Node.Locks.{test_ownership-single}
use libgroupcache.Node.Migration.{
  Scan, told_nodes, migrate_key, migrate_keys, migrate, remove_keys, expire_migrated, expire_all,
}

if_same {ℓ} : {A : Type ℓ} (b : Bool) (x : A) → (if b then x else x) ≡ x
if_same true x = refl
if_same false x = refl

zero_add : (n : ℕ) → 0 + n ≡ n
zero_add n = ground arith

-- The start of a migration indexes the array of its nodes with the indexes of the shards: a shard other
-- than this node whose index is past that array is read out of bounds.
pub told_nodes-past :
    (me s : List ℕ) (xs ys nodes : List (List ℕ))
    → length nodes ≤ length xs
    → same_label s me ≡ false
    → told_nodes me (xs ++ s ∷ ys) nodes ≡ none
unfolding told_nodes
told_nodes-past me s [] ys [] short other = rw other refl
told_nodes-past me s [] ys (n ∷ nodes) short other = absurd (ground arith)
told_nodes-past me s (x ∷ xs) ys [] short other =
    rw (told_nodes-past me s xs ys [] (ground arith) other) (if_same (same_label x me) none)
told_nodes-past me s (x ∷ xs) ys (n ∷ nodes) short other =
    rw (told_nodes-past me s xs ys nodes (ground arith) other) (if_same (same_label x me) none)

module _ {H : Host} where
  scanned_as :
      (s : Scan H) (m n : ℕ)
      → m ≡ n
      → ◌≡◌ {A = Outcome (Scan H × Bool)}
          (done (record s { scanned = m }, true))
          (done (record s { scanned = n }, true))
  scanned_as s m n e = ap (λ (k : ℕ). done (record s { scanned = k }, true)) e

  -- The loop over the index of a node that is the only shard.
  migrate_keys-single :
      (keys : List (List ℕ)) (s : Scan H)
      → (length s.node.shards == 1) ≡ true
      → migrate_keys keys s ≡ done (record s { scanned = s.scanned + length keys }, true)
  unfolding migrate_keys migrate_key
  migrate_keys-single [] s one = scanned_as s s.scanned (s.scanned + 0) (ground arith)
  migrate_keys-single (key ∷ keys) s one = rw (test_ownership-single s.node key true one) (
      migrate_keys-single keys (record s { scanned = s.scanned + 1 }) one
      ∙ scanned_as s (s.scanned + 1 + length keys) (s.scanned + suc (length keys)) (ground arith))

  expire_all-single :
      (a : Node H) → (length a.shards == 1) ≡ true → expire_all a ≡ a.volatile_storage
  unfolding expire_migrated
  expire_all-single a one = fun_ext (λ key. elim (Option-cases (a.volatile_storage key)) [
    | inl e ↦ rw e refl
    | inr (v, e) ↦ rw (e, test_ownership-single a key true one) refl
  ])

  -- A migration that starts on a node which is the only shard moves nothing, to whichever nodes it goes:
  -- its thread counts each key of the index as scanned, none as migrated, and the storage is as before.
  pub migrate-single :
      (a : Node H) (index : List (List ℕ))
      → (length a.shards == 1) ≡ true
      → migrate a index
        ≡ done (
          record {
            node = record a { migration_done = true };
            migrated = 0;
            scanned = length index;
            errors = 0;
            to_delete = [];
          },
          true,
        )
  unfolding migrate remove_keys
  migrate-single a index one =
      rw
        (migrate_keys-single index
          (record { node = a; migrated = 0; scanned = 0; errors = 0; to_delete = [] }) one)
        (rw (if_same a.has_remove a.storage, zero_add (length index), expire_all-single a one) refl)
