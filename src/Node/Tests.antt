-- ===== src/Node/Tests.antt =====
-- The node of src/shardcache.c with a storage in memory, the first label of a ring as its owner, and
-- peers that answer 0.
use libgroupcache.Base.{
  ◌≢◌, minus_one, ℕ, Bool, true, false, ◌&&◌, none, some, List, [], ◌∷◌, length, ◌≡◌, if◌then◌else◌,
  All, refl, pos, keys_discrete,
}
use native.Mathlib.Decide.{ℕ_discrete}
use libgroupcache.Node.State.{Table, put, cut, VolatileObject, Host, Node, done}
use libgroupcache.Node.Ownership.{test_ownership, is_mine}
use libgroupcache.Node.Volatile.{is_some, set_mode, cas_mode}
use libgroupcache.Node.Commands.{set_internal, value_of}
use libgroupcache.Node.View.Sets.{set_internal-cas}
use libgroupcache.Node.Reads.{fetch_mine, held_value, fetch_mine-value_of}
use libgroupcache.Fetch.{CachedObject, nowhere}
use libgroupcache.Node.Migration.{Scan, migrate, remove_keys}
use libgroupcache.Node.Migration.Scanned.{IsCopied}
use libgroupcache.Node.Migration.Safety.{migrate-IsSafe}

first_label : List (List ℕ) → List ℕ
first_label [] = []
first_label (x ∷ xs) = x

abbrev memory : Host
memory = record {
  Store = Table (List ℕ);
  Ring = List (List ℕ);
  fetch = λ st k. (pos 0, st k);
  store = λ st k v m. (put st k v, pos 0);
  cas = λ st k p v. (put st k v, pos 0);
  remove = λ st k. (cut st k, pos 0);
  exist = λ st k. is_some (st k);
  ring = λ ls. ls;
  lookup = λ r k. first_label r;
  peer = λ h n c. pos 0;
  await = λ h. pos 0;
}

abbrev here : List ℕ
here = 109 ∷ []

abbrev there : List ℕ
there = 110 ∷ []

abbrev key : List ℕ
key = 107 ∷ []

abbrev value : List ℕ
value = 1 ∷ 2 ∷ []

-- A node of two, which owns every key.
abbrev owner : Node memory
owner = record {
  me = here;
  shards = here ∷ there ∷ [];
  chash = here ∷ [];
  migration = none;
  migration_done = false;
  replica = false;
  storage = λ k. none;
  use_persistent_storage = true;
  has_store = true;
  has_cas = true;
  has_remove = true;
  has_exist = true;
  global = false;
  volatile_storage = λ k. none;
  volatile_timeouts = λ k. none;
  cache_timeouts = λ k. none;
  table_size = 0;
  expires = 0;
  jobs = [];
  now = 100;
  expire_time = 0;
  cache_on_set = false;
  evict_on_delete = true;
  actions = [];
}

-- The node that is left after a value that expires.
abbrev old : VolatileObject
old = record { content = 7 ∷ []; dlen = 1; expire = 0 }

abbrev holder : Node memory
holder = record owner { volatile_storage = put owner.volatile_storage key old }

-- The node in a migration of all keys to another, with a value in its storage.
abbrev mover : Node memory
mover = record owner {
  migration = some (there ∷ [], there ∷ here ∷ []);
  storage = put owner.storage key value;
}

is_mine-holder : is_mine holder key ≡ done (holder, pos 1, here)
unfolding is_mine test_ownership keys_discrete first_label ℕ_discrete
is_mine-holder = refl

set_internal-cas_example :
    set_internal holder key value (some value) 0 0 cas_mode false true
    ≡ set_internal holder key value none 0 0 set_mode false true
set_internal-cas_example =
    set_internal-cas holder holder key value here (some value) 0 0 0 false true is_mine-holder

-- Without a storage, with a timer of the key.
abbrev timed : Node memory
timed = record holder {
  use_persistent_storage = false;
  volatile_timeouts = put holder.volatile_timeouts key 30;
}

abbrev ended : Node memory
ended = record mover { migration_done = true }

migrate-IsSafe_example :
    (s : Scan memory) × (finished : Bool) × (migrate mover (key ∷ []) ≡ done (s, finished))
    × All (IsCopied mover) s.to_delete
    × (length s.to_delete ≡ s.migrated)
    × (s.node.storage ≡ (
        if finished && mover.has_remove
        then remove_keys memory mover.storage s.to_delete
        else mover.storage))
migrate-IsSafe_example = migrate-IsSafe mover (key ∷ []) refl

abbrev blank : CachedObject
blank = record {
  place = nowhere;
  content = [];
  dlen = 0;
  listeners = some (1 ∷ []);
  complete = false;
  evicted = false;
  evict = false;
  drops = false;
  fetching = true;
  has_res = true;
}

pos-ne-negsuc : pos 0 ≢ minus_one
pos-ne-negsuc = λ e. cc

fetched : (memory.fetch holder.storage key).0 ≢ minus_one
fetched e = pos-ne-negsuc e

fetch_mine-value_of_example :
    let r = fetch_mine (λ c d. true) false holder key [] blank in
    (held_value r.obj ≡ value_of holder key) × (r.obj.complete ≡ true) × (r.obj.fetching ≡ false)
fetch_mine-value_of_example =
    fetch_mine-value_of (λ c d. true) false holder key [] blank refl fetched
