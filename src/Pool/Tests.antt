-- ===== src/Pool/Tests.antt =====
-- A pool of src/connections_pool.c with one idle connection, in a system where all succeeds.
use libgroupcache.Base.{ℕ, true, false, Option, List, [], ◌∷◌, ◌≡◌, refl, arith}
use libgroupcache.Node.State.{done}
use libgroupcache.Pool.{connected, Sys, Pool, pool_get, pool_add}
use libgroupcache.Pool.Books.{IsKept, pool_add-IsKept}
use libgroupcache.Pool.Take.{IsTaken, pool_get-IsTaken}

abbrev sys : Sys
sys = record {
  set_ok = λ a. true;
  push_ok = λ c fd. true;
  has_flags = λ c fd. true;
  connect = λ c a again. connected 9;
  now = λ c. record { tv_sec = 100; tv_usec = 0 };
}

abbrev address : List ℕ
address = 97 ∷ []

abbrev idle : Pool
idle = record {
  table = (address, record { fd = 5; last_access = record { tv_sec = 90; tv_usec = 0 } } ∷ []) ∷ [];
  max_spare = 2;
  check = false;
  expire_time = 5000;
  closed = [];
}

pool_add-IsKept_example : IsKept idle (pool_add sys idle address 6) 6 2
pool_add-IsKept_example = pool_add-IsKept sys idle address 6 2 (omega arith) (omega arith, tt)

pool_get-IsTaken_example :
    (b : Pool) × (r : Option ℕ) × (pool_get sys idle address ≡ done (b, r))
    × IsTaken sys idle address 2 b r
pool_get-IsTaken_example = pool_get-IsTaken sys idle address 2 refl (omega arith, tt)
