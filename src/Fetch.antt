-- ===== src/Fetch.antt =====
-- A cached object of src/arc_ops.c that arrives from a peer in pieces: the callback of an asynchronous
-- fetch, arc_ops_fetch_from_peer_async_cb, and the listeners that it tells.
pub mod Stream
pub mod Takes
pub mod Window
mod Tests
use libgroupcache.Base.{
  ℕ, zero, suc, ◌+◌, Bool, true, false, not, ◌&&◌, ◌||◌, Option, none, some, List, [], ◌∷◌, ◌++◌,
  length, ltb, ◌==◌, if◌then◌else◌, ℤ, pos, minus_one,
}
use libgroupcache.Base.Words.{add64}

-- Where obj->data points: to nothing, to dbuf, or to memory of its own.
pub data Place : Type 0 where
  nowhere : Place
  inner : Place
  heap : Place

-- sizeof(obj->dbuf)
abbrev pub dbuf_size : ℕ
dbuf_size = 32

-- cached_object_t, without its key; listeners is none for NULL.
pub record CachedObject : Type 0 where
  pub place : Place
  pub content : List ℕ
  pub dlen : ℕ
  pub listeners : Option (List ℕ)
  pub complete : Bool
  pub evicted : Bool
  pub evict : Bool
  pub drops : Bool
  pub fetching : Bool
  pub has_res : Bool

-- A call of a listener: bytes with the total size that is expected, the end with the length of the
-- object, or an error.
pub data ListenerCall : Type 0 where
  told_data : ℕ → List ℕ → ℕ → ListenerCall
  told_end : ℕ → ℕ → ListenerCall
  told_error : ℕ → ListenerCall

-- What the callback does besides: it closes the connection or gives it back, releases or drops the
-- resource of the ARC cache, updates its size, and schedules the expiry of the key.
pub data Effect : Type 0 where
  closes : Effect
  gives_back : Effect
  releases : Effect
  drops_resource : Effect
  updates_size : ℕ → Effect
  schedules : ℕ → Effect

-- The object with what was called and done, the latest first, and shc_fetch_async_arg_t, whose
-- `connected` says that it has a connection.
pub record Fetch : Type 0 where
  pub obj : CachedObject
  pub calls : List ListenerCall
  pub effects : List Effect
  pub connected : Bool
  pub expire_time : ℕ
  pub lazy_expiration : Bool

-- The argument idx of the callback: -1, -2, -3, 0, 2, and any other.
pub data ReadEvent : Type 0 where
  read_done : ReadEvent
  read_error : ReadEvent
  read_close : ReadEvent
  read_data : ReadEvent
  read_status : ReadEvent
  read_other : ReadEvent

-- Whether a listener answers 0 to a call, after the calls before it.
abbrev pub Answers : Type 0
Answers = List ListenerCall → ListenerCall → Bool

-- list_foreach_value, of arc_ops_fetch_from_peer_notify_listener: a listener that does not answer 0 is
-- removed. The listeners that are left, and the calls.
unfoldable pub notify :
    Answers → List ℕ → List ℕ → ℕ → List ListenerCall → List ℕ × List ListenerCall
notify A [] bytes total calls = ([], calls)
notify A (l ∷ ls) bytes total calls =
    let c = told_data l bytes total in
    let (rest, calls') = notify A ls bytes total (c ∷ calls) in
    (if A calls c then l ∷ rest else rest, calls')

-- Of arc_ops_fetch_from_peer_notify_listener_complete, which removes each listener.
unfoldable pub notify_complete : List ℕ → ℕ → List ListenerCall → List ListenerCall
notify_complete [] n calls = calls
notify_complete (l ∷ ls) n calls = notify_complete ls n (told_end l n ∷ calls)

-- Of arc_ops_fetch_from_peer_notify_listener_error, which removes each listener.
unfoldable pub notify_error : List ℕ → List ListenerCall → List ListenerCall
notify_error [] calls = calls
notify_error (l ∷ ls) calls = notify_error ls (told_error l ∷ calls)

abbrev pub set_obj : CachedObject → Fetch → Fetch
set_obj o f = record f { obj = o }

abbrev pub effect_if : Bool → Effect → Fetch → Fetch
effect_if b e f = record f { effects = if b then e ∷ f.effects else f.effects }

abbrev pub emptied : Option (List ℕ) → Option (List ℕ)
emptied none = none
emptied (some ls) = some []

-- Errors for all listeners, the connection closed, and no more fetching.
abbrev pub fail_all : List ℕ → Fetch → Fetch
fail_all ls f = effect_if f.connected closes (record f {
  obj = record f.obj { listeners = emptied f.obj.listeners; fetching = false };
  calls = notify_error ls f.calls;
})

-- The case -1.
unfoldable pub on_done : List ℕ → Fetch → Fetch
on_done ls f =
    let o = f.obj in
    let n = o.dlen in
    let whole = not (n == 0) in
    let keeps = whole && not o.drops in
    let gone = o.evict || o.evicted in
    let size : ℕ = elim o.place [ inner ↦ 0 | nowhere ↦ n | heap ↦ n ] in
    let lasts = keeps && (ltb 0 f.expire_time && (not gone && not f.lazy_expiration)) in
    effect_if lasts (schedules f.expire_time) (
      effect_if keeps (updates_size size) (record f {
        obj = record o {
          listeners = some [];
          complete = true;
          fetching = false;
          drops = if whole then o.drops else true;
        };
        calls = notify_complete ls n f.calls;
      }))

-- The case -3; it frees the argument of the callback.
unfoldable pub on_close : Fetch → Fetch
on_close f =
    let o = f.obj in
    let dropped = o.drops || (o.evict || (o.dlen == 0)) in
    let g = effect_if f.connected gives_back (set_obj (record o { fetching = false }) f) in
    record g { effects = (if dropped then drops_resource else releases) ∷ g.effects }

-- The case 0: the bytes go behind those that are there, and to the listeners if there are any.
unfoldable pub on_data : Answers → List ℕ → List ℕ → ℕ → Fetch → Fetch
on_data A ls bytes total f =
    let o = f.obj in
    let n = add64 o.dlen (length bytes) in
    let (rest, calls) = notify A ls bytes total f.calls in
    let some_bytes = not (length bytes == 0) in
    record f {
      obj = record o {
        place = if ltb dbuf_size n then heap else inner;
        content = o.content ++ bytes;
        dlen = n;
        listeners = some (if some_bytes then rest else ls);
      };
      calls = if some_bytes then calls else f.calls;
    }

abbrev pub event_cb : Answers → ReadEvent → List ℕ → List ℕ → ℕ → Fetch → Fetch × ℤ
event_cb A read_done ls bytes total f = (on_done ls f, pos 0)
event_cb A read_error ls bytes total f =
    let g = fail_all ls f in (record g { effects = drops_resource ∷ g.effects }, minus_one)
event_cb A read_close ls bytes total f = (on_close f, pos 0)
event_cb A read_data ls bytes total f = (on_data A ls bytes total f, pos 0)
event_cb A read_status ls bytes total f = (f, pos 0)
event_cb A read_other ls bytes total f = (f, pos 0)

-- Without a list of listeners the callback only cleans up.
unfoldable pub listeners_cb : Answers → ReadEvent → Option (List ℕ) → List ℕ → ℕ → Fetch → Fetch × ℤ
listeners_cb A e none bytes total f =
    let g = effect_if f.connected closes (set_obj (record f.obj { fetching = false }) f) in
    (record g { effects = releases ∷ g.effects }, minus_one)
listeners_cb A e (some ls) bytes total f = event_cb A e ls bytes total f

-- arc_ops_fetch_from_peer_async_cb
unfoldable pub async_cb : Answers → ReadEvent → List ℕ → ℕ → Fetch → Fetch × ℤ
async_cb A e bytes total f =
    let ls : List ℕ = elim f.obj.listeners [ none ↦ [] | some l ↦ l ] in
    if f.obj.has_res
    then listeners_cb A e f.obj.listeners bytes total f
    else (fail_all ls f, minus_one)
