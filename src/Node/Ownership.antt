-- ===== src/Node/Ownership.antt =====
-- Who owns a key in src/shardcache.c: shardcache_test_ownership_internal, and the choice of a peer in
-- src/shardcache_node.c.
use libgroupcache.Base.{
  ℕ, Bool, true, false, ◌||◌, none, some, List, [], ◌∷◌, length, take, ◌==◌, if◌then◌else◌, ℤ, pos,
  negsuc, minus_one, keys_discrete,
}
use mathlib.Core.Logic.{ite}
use libgroupcache.Node.State.{Host, Node, Outcome, stuck, done, ◌>>=◌, act, end_to_replicas}

-- strcmp of two labels
abbrev pub same_label : List ℕ → List ℕ → Bool
same_label x y = ite (keys_discrete x y) true false

unfoldable pub has_label : List ℕ → List (List ℕ) → Bool
has_label x [] = false
has_label x (y ∷ ys) = if same_label y x then true else has_label x ys

-- The buffers for a label have 1024 bytes.
abbrev pub label_room : ℕ
label_room = 1023

module _ {H : Host} where
  -- The owner that a ring has for the key: 1 if it is this node, with the label.
  abbrev pub owner_in : Node H → H.Ring → List ℕ → ℤ × List ℕ
  owner_in a r key =
      let name = take label_room (H.lookup r key) in
      (if same_label name a.me then pos 1 else pos 0, name)

  -- shardcache_migration_end, called with the lock held: without replicas it waits for that lock.
  unfoldable pub end_migration : Node H → Outcome (Node H)
  end_migration a = if a.replica then done (act end_to_replicas a) else stuck

  -- Whether a migration is there, and its thread has finished.
  abbrev pub is_migrated : Node H → Bool
  is_migrated a = elim a.migration [ none ↦ false | some r ↦ a.migration_done ]

  abbrev pub owner_of : Node H → Bool → List ℕ → ℤ × List ℕ
  owner_of a true key = elim a.migration [
    | none ↦ (minus_one, [])
    | some (r, shards) ↦ owner_in a r key
  ]
  owner_of a false key = owner_in a a.chash key

  -- shardcache_test_ownership_internal; the last argument is its flag for the migration. The label
  -- stays empty where the code does not write it.
  unfoldable pub test_ownership : Node H → List ℕ → Bool → Outcome (Node H × ℤ × List ℕ)
  test_ownership a key of_migration = if length a.shards == 1 then done (a, pos 1, []) else (do
    b ← (if is_migrated a then end_migration a else done a)
    let (mine, name) = owner_of b of_migration key
    done (b, mine, name))

  -- The two tests at the start of each command: the migration's ring first.
  unfoldable pub is_mine : Node H → List ℕ → Outcome (Node H × ℤ × List ℕ)
  is_mine a key = do
    (b, mine, name) ← test_ownership a key true
    (elim mine [ pos n ↦ done (b, pos n, name) | negsuc n ↦ test_ownership b key false ])

  -- shardcache_node_select finds the label among the nodes, or among those of a migration.
  unfoldable pub node_select : Node H → List ℕ → Bool
  node_select a label =
      has_label label a.shards
      || elim a.migration [ none ↦ false | some (r, shards) ↦ has_label label shards ]
