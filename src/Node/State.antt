-- ===== src/Node/State.antt =====
-- The state of src/shardcache.c: the part of shardcache_t that its commands read and write, and what
-- they call.
use libgroupcache.Base.{◌≡◌, ◌≢◌, refl, ℕ, Bool, Option, none, some, List, ◌∷◌, ℤ, keys_discrete}
use mathlib.Core.Logic.{ite, if_pos, if_neg}

-- A hash table, as a map. ht_set, ht_delete.
abbrev pub Table {ℓ} : Type ℓ → Type ℓ
Table A = List ℕ → Option A

abbrev pub put {ℓ} : {A : Type ℓ} → Table A → List ℕ → A → Table A
put t k v j = ite (keys_discrete j k) (some v) (t j)

abbrev pub cut {ℓ} : {A : Type ℓ} → Table A → List ℕ → Table A
cut t k j = ite (keys_discrete j k) none (t j)

pub put-same {ℓ} : {A : Type ℓ} (t : Table A) (k : List ℕ) (v : A) → put t k v k ≡ some v
put-same t k v = if_pos (keys_discrete k k) refl _ _

pub put-other {ℓ} : {A : Type ℓ} (t : Table A) (k j : List ℕ) (v : A) → j ≢ k → put t k v j ≡ t j
put-other t k j v n = if_neg (keys_discrete j k) n _ _

pub cut-same {ℓ} : {A : Type ℓ} (t : Table A) (k : List ℕ) → cut t k k ≡ none
cut-same t k = if_pos (keys_discrete k k) refl _ _

pub cut-other {ℓ} : {A : Type ℓ} (t : Table A) (k j : List ℕ) → j ≢ k → cut t k j ≡ t j
cut-other t k j n = if_neg (keys_discrete j k) n _ _

-- volatile_object_t: a buffer, the length that is noted for it, and when it expires.
pub record VolatileObject : Type 0 where
  pub content : List ℕ
  pub dlen : ℕ
  pub expire : ℕ

-- shardcache_expire_job_t; the flag is is_volatile.
pub data ExpireJob : Type 0 where
  schedule : List ℕ → ℕ → Bool → ExpireJob
  unschedule : List ℕ → Bool → ExpireJob

-- A command that goes to a peer: send_to_peer, add_to_peer, cas_on_peer, delete_from_peer,
-- exists_on_peer.
pub data Command : Type 0 where
  send_set : List ℕ → List ℕ → ℕ → ℕ → Command
  send_add : List ℕ → List ℕ → ℕ → ℕ → Command
  send_cas : List ℕ → List ℕ → List ℕ → ℕ → ℕ → Command
  send_delete : List ℕ → Command
  send_exists : List ℕ → Command

-- What the code does to the rest of the node and to others: the ARC cache is loaded or a key removed
-- from it, the evictor gets a job, a command goes to a peer, a command goes to the replicas, and the
-- caller's callback gets a code.
pub data Action : Type 0 where
  arc_load arc_remove : List ℕ → Action
  evict_job : List ℕ → Action
  to_peer : List ℕ → Command → Action
  end_to_replicas : Action
  called_back : ℤ → Action

-- The storage module, which a user provides (shardcache_storage_t), the consistent hashing library,
-- and the peers. The results of peers may depend on all that happened before.
pub record Host : Type 1 where
  pub Store : Type 0
  pub Ring : Type 0
  -- storage.fetch: its code, and the value
  pub fetch : Store → List ℕ → ℤ × Option (List ℕ)
  -- storage.store, with its mode
  pub store : Store → List ℕ → List ℕ → ℕ → Store × ℤ
  -- storage.cas, of the previous and the new value
  pub cas : Store → List ℕ → List ℕ → List ℕ → Store × ℤ
  pub remove : Store → List ℕ → Store × ℤ
  pub exist : Store → List ℕ → Bool
  -- chash_create, of the labels, and chash_lookup
  pub ring : List (List ℕ) → Ring
  pub lookup : Ring → List ℕ → List ℕ
  -- the code of a command on a peer, and of the wait for its response
  pub peer : List Action → List ℕ → Command → ℤ
  pub await : List Action → ℤ

-- shardcache_t. The storage's callbacks may be missing; `shards` has the labels of the nodes. The
-- trace `actions` has the latest first, the queue `jobs` the latest last. The tables of timeouts have
-- the seconds that a timer was set for.
pub record Node (H : Host) : Type 0 where
  pub me : List ℕ
  pub shards : List (List ℕ)
  pub chash : H.Ring
  pub migration : Option (H.Ring × List (List ℕ))
  pub migration_done : Bool
  pub replica : Bool
  pub storage : H.Store
  pub use_persistent_storage : Bool
  pub has_store : Bool
  pub has_cas : Bool
  pub has_remove : Bool
  pub has_exist : Bool
  pub global : Bool
  pub volatile_storage : Table VolatileObject
  pub volatile_timeouts : Table ℕ
  pub cache_timeouts : Table ℕ
  pub table_size : ℕ
  pub expires : ℕ
  pub jobs : List ExpireJob
  pub now : ℕ
  pub expire_time : ℕ
  pub cache_on_set : Bool
  pub evict_on_delete : Bool
  pub actions : List Action

-- The end of a call, or a thread that waits for a lock that it holds itself.
pub data Outcome {ℓ} (A : Type ℓ) : Type ℓ where
  stuck : Outcome A
  done : A → Outcome A

infixl 5 ◌>>=◌
abbrev pub ◌>>=◌ {ℓ κ} : {A : Type ℓ} {B : Type κ} → Outcome A → (A → Outcome B) → Outcome B
stuck >>= f = stuck
done a >>= f = f a

module _ {H : Host} where
  abbrev pub act : Action → Node H → Node H
  act x a = record a { actions = x ∷ a.actions }
