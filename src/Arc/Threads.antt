-- ===== src/Arc/Threads.antt =====
-- Many threads in src/arc.c. Each atomic section, between the calls of the lock, is a step; the
-- fetches that are under way outside the lock are part of the state.
use libgroupcache.Base.{ℕ, List, ◌≤◌, ◌<◌, ◌≡◌, true, Option, none, some, ℤ, update}
use libgroupcache.Arc.State.{HashTable, ListName, Cache}
use libgroupcache.Arc.Invariant.{Inv}
use libgroupcache.Arc.Move.{Begun, returned, fetching, move_begin, move_end}
use libgroupcache.Arc.Balance.{update_resource_size, set_size}
use libgroupcache.Arc.Lookup.{object_create}

-- `pending o` is the list that the object's value is being fetched for.
pub record Threads (H : HashTable) : Type 0 where
  pub cache : Cache H
  pub pending : ℕ → Option ListName

module _ {H : HashTable} where
  -- The state after the first section of a move.
  unfoldable pub begun : ℕ → Begun H → (ℕ → Option ListName) → Threads H
  begun o (returned b) pending = record { cache = b; pending = pending }
  begun o (fetching b l) pending = record { cache = b; pending = update pending o (some l) }

  pub data Step : Threads H → Threads H → Type 0 where
    begin_move :
        (t : Threads H) (o : ℕ) (target : Option ListName)
        → o < t.cache.next
        → Step t (begun o (move_begin o target t.cache) t.pending)
    end_move :
        (t : Threads H) (o : ℕ) (l : ListName) (r : ℤ × ℕ)
        → t.pending o ≡ some l
        → Step t (record { cache = (move_end o l r t.cache).0; pending = update t.pending o none })
    resize :
        (t : Threads H) (o size : ℕ)
        → Step t (record t { cache = update_resource_size o size t.cache })
    -- arc_balance is moves that fetch nothing, under one hold of the lock, and then this.
    settle : (t : Threads H) → Step t (record t { cache = record (t.cache) { needs_balance = 0 } })
    make :
        (t : Threads H) (key : List ℕ) → Step t (record t { cache = (object_create key t.cache).0 })
    set_limit : (t : Threads H) (size : ℕ) → Step t (record t { cache = set_size size t.cache })

  pub data Reach (s : Threads H) : Threads H → Type 0 where
    here : Reach s s
    next : {t u : Threads H} → Reach s t → Step t u → Reach s u

  -- An object whose value is being fetched is locked and in no list.
  pub record ThreadsInv (t : Threads H) : Type 0 where
    pub inv : Inv t.cache
    pub away :
        (o : ℕ) (l : ListName)
        → t.pending o ≡ some l
        → ((t.cache.objs o).state ≡ none) × ((t.cache.objs o).locked ≡ true)
    pub unmade : (o : ℕ) → t.cache.next ≤ o → ((t.cache.objs o).state ≡ none) × (t.pending o ≡ none)
