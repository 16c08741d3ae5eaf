-- ===== src/Fetch/Tests.antt =====
-- An object of src/arc_ops.c that arrives in three pieces, with two listeners.
use libgroupcache.Base.{
  ℕ, ◌++◌, ◌≤◌, true, false, none, some, List, [], ◌∷◌, ◌≡◌, refl, arith, one, count,
}
use libgroupcache.Fetch.{nowhere, inner, dbuf_size, Fetch, Answers, read_done, async_cb}
use libgroupcache.Fetch.Window.{Window, helper, helper_all, opened}
use libgroupcache.Fetch.Stream.{IsStreaming, heard, ends, concat, receive, async_cb-streams}

-- Both listeners answer 0.
abbrev all_listen : Answers
all_listen calls c = true

abbrev fetch : Fetch
fetch = record {
  obj = record {
    place = nowhere;
    content = [];
    dlen = 0;
    listeners = some (1 ∷ 2 ∷ []);
    complete = false;
    evicted = false;
    evict = false;
    drops = false;
    fetching = true;
    has_res = true;
  };
  calls = [];
  effects = [];
  connected = true;
  expire_time = 0;
  lazy_expiration = false;
}

abbrev pieces : List (List ℕ)
pieces = (7 ∷ 8 ∷ []) ∷ [] ∷ (9 ∷ []) ∷ []

nowhere-inner : nowhere ≡ inner → 0 ≤ dbuf_size
nowhere-inner e = omega arith

fetch-IsStreaming : IsStreaming 1 fetch []
unfolding count one heard ends
fetch-IsStreaming = record {
  ls = 1 ∷ 2 ∷ [];
  res = refl;
  has = refl;
  once = refl;
  content = refl;
  size = refl;
  fits = nowhere-inner;
  told = refl;
  not_ended = refl;
}

async_cb-streams_example :
    let g = (async_cb all_listen read_done [] 3 (receive all_listen pieces 3 fetch)).0 in
    (g.obj.content ≡ [] ++ concat pieces)
    × (g.obj.complete ≡ true)
    × (g.obj.fetching ≡ false)
    × (g.obj.place ≡ inner → g.obj.dlen ≤ dbuf_size)
    × (heard 1 g.calls ≡ [] ++ concat pieces)
    × (ends 1 g.calls ≡ 1)
unfolding concat
async_cb-streams_example =
    async_cb-streams all_listen 1 pieces [] 3 fetch (λ calls c. refl) (omega arith)
      fetch-IsStreaming

-- From the second byte on, one byte: the rest of the first piece is passed, and then more than there is.
overrun : helper_all ((7 ∷ 8 ∷ 9 ∷ []) ∷ (10 ∷ []) ∷ []) (opened 1 1) ≡ none
unfolding helper helper_all
overrun = refl
