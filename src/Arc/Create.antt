-- ===== src/Arc/Create.antt =====
-- arc_create of src/arc.c. The hash table and the reference counter are fresh.
use libgroupcache.Base.{ℕ, ◌/◌, ◌≤◌, ◌≡◌, refl, Bool, false, none, List, [], arith}
use libgroupcache.Arc.State.{HashTable, ArcState, Object, Cache}
use libgroupcache.Arc.Invariant.{total}
use libgroupcache.Arc.Books.Balance.{Sound}

abbrev pub empty_state : ArcState
empty_state = record { items = []; size = 0; count = 0 }

abbrev pub no_object : Object
no_object = record { state = none; size = 0; key = []; async = false; locked = false }

-- Half of the size is for the residents, and half of that is where the marker starts.
unfoldable pub arc_create : {H : HashTable} → ℕ → ℕ → Bool → Cache H
arc_create {H} c cos mode = record {
  hash = H.empty;
  c = c / 2;
  p = c / 2 / 2;
  cos = cos;
  lists = λ l. empty_state;
  objs = λ o. no_object;
  needs_balance = 0;
  mode = mode;
  refs = [];
  next = 0;
}

module _ {H : HashTable} (empty : (k : List ℕ) → H.get H.empty k ≡ none) where
  pub arc_create-Sound :
      (c cos : ℕ) (mode : Bool)
      → Sound (arc_create {H = H} c cos mode) (λ x. 0)
        × ((arc_create {H = H} c cos mode).p ≤ (arc_create {H = H} c cos mode).c)
  unfolding arc_create total
  arc_create-Sound c cos mode = (
    record {
      inv = record {
        lists = λ l. record { distinct = tt; members = λ o. refl; sized = refl; counted = refl };
        objects = λ o. record { fetched = λ e. refl; fits = omega arith };
      };
      books = record {
        owned = λ k o e. ground (arith, empty k);
        balanced = λ x. rw empty;
        fresh = λ x h. (refl, refl, refl);
      };
    },
    omega arith,
  )
