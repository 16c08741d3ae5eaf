-- ===== src/Node/Reads.antt =====
-- What arc_ops_fetch of src/arc_ops.c does for a key that this node is responsible for: its part after
-- the peers, on a storage that has a fetch.
use libgroupcache.Base.{
  ℕ, zero, suc, Bool, true, false, not, ◌&&◌, ◌||◌, Bool-cases, Option, none, some, Option-cases,
  List, [], length, take, ltb, ◌==◌, if◌then◌else◌, ◌≡◌, ◌≢◌, refl, sym, ap, ◌∙◌, subst, inl, inr,
  arith, ℤ, pos, negsuc, minus_one,
}
use libgroupcache.Node.State.{VolatileObject, schedule, Host, Node}
use libgroupcache.Node.Volatile.{queue_job}
use libgroupcache.Node.Commands.{value_of}
use libgroupcache.Node.View.{stored_of, value_of-volatile, value_of-stored, value_of-empty}
use libgroupcache.Fetch.{
  Place, nowhere, inner, heap, dbuf_size, CachedObject, ListenerCall, Answers, notify,
  notify_complete, notify_error,
}

abbrev pub is_there : Place → Bool
is_there nowhere = false
is_there inner = true
is_there heap = true

-- arc_ops_fetch_copy_volatile_object_cb, if there is a volatile value.
unfoldable pub got_volatile : Option VolatileObject → CachedObject → CachedObject
got_volatile none o = o
got_volatile (some v) o = if v.dlen == 0 then o else record o {
  place = if ltb dbuf_size v.dlen then heap else inner;
  content = take v.dlen v.content;
  dlen = v.dlen;
}

-- What the storage writes to the object.
unfoldable pub got_stored : Option (List ℕ) → CachedObject → CachedObject
got_stored none o = o
got_stored (some v) o = record o { place = heap; content = v; dlen = length v }

-- The node, the object, the calls of its listeners, and the code.
pub record Read (H : Host) : Type 0 where
  pub node : Node H
  pub obj : CachedObject
  pub calls : List ListenerCall
  pub code : ℤ

-- The listeners of an asynchronous object hear the value and its end.
unfoldable pub tell_value :
    Answers → Option (List ℕ) → CachedObject → List ListenerCall → List ListenerCall
tell_value A none o calls = calls
tell_value A (some ls) o calls =
    if is_there o.place
    then (let (rest, calls') = notify A ls o.content o.dlen calls in
        notify_complete rest o.dlen calls')
    else notify_complete ls o.dlen calls

abbrev pub no_listeners : Option (List ℕ) → Option (List ℕ)
no_listeners none = none
no_listeners (some ls) = some []

-- The value of an object.
unfoldable pub held_value : CachedObject → Option (List ℕ)
held_value o = if is_there o.place then some o.content else none

is_placed : (n : ℕ) → is_there (if ltb dbuf_size n then heap else inner) ≡ true
is_placed n = elim (Bool-cases (ltb dbuf_size n)) [ inl y ↦ rw y refl | inr m ↦ rw m refl ]

if_is {ℓ} :
    {A : Type ℓ} {b : Bool} (c : Bool)
    → b ≡ c
    → (x y : A) → (if b then x else y) ≡ (if c then x else y)
if_is c e x y = ap (λ d. if d then x else y) e

module _ {H : Host} where
  -- The end of the fetch: the object is complete, with a value or without.
  unfoldable pub finish :
      Answers → Bool → Node H → List ℕ → List ListenerCall → CachedObject → Read H
  finish A lazy a key calls o =
      let gone = o.evict || o.evicted in
      let lasts = is_there o.place && (ltb 0 a.expire_time && (not gone && not lazy)) in
      record {
        node = if lasts then queue_job (schedule key a.expire_time false) a else a;
        obj = record o { complete = true; fetching = false; listeners = no_listeners o.listeners };
        calls = tell_value A o.listeners o calls;
        code = if is_there o.place && not gone then pos 0 else pos 1;
      }

  -- The storage's fetch failed.
  unfoldable pub fail_read : Node H → List ListenerCall → CachedObject → Read H
  fail_read a calls o = record {
    node = a;
    obj = record o { fetching = false; drops = true; listeners = no_listeners o.listeners };
    calls = elim o.listeners [ none ↦ calls | some ls ↦ notify_error ls calls ];
    code = minus_one;
  }

  unfoldable pub read_stored :
      Answers
      → Bool
      → Node H
      → List ℕ
      → List ListenerCall
      → CachedObject
      → ℤ × Option (List ℕ)
      → Read H
  read_stored A lazy a key calls o (negsuc zero, v) = fail_read a calls o
  read_stored A lazy a key calls o (negsuc (suc n), v) = finish A lazy a key calls (got_stored v o)
  read_stored A lazy a key calls o (pos n, v) = finish A lazy a key calls (got_stored v o)

  -- The fetch, after the volatile values.
  unfoldable pub fetch_after :
      Answers → Bool → Node H → List ℕ → List ListenerCall → CachedObject → Read H
  fetch_after A lazy a key calls v =
      if is_there v.place && not (v.dlen == 0)
      then finish A lazy a key calls v
      else if a.use_persistent_storage
      then read_stored A lazy a key calls v (H.fetch a.storage key)
      else finish A lazy a key calls v

  -- arc_ops_fetch, for a key of this node. Only objects for an asynchronous get have listeners.
  unfoldable pub fetch_mine :
      Answers → Bool → Node H → List ℕ → List ListenerCall → CachedObject → Read H
  fetch_mine A lazy a key calls o =
      fetch_after A lazy a key calls (got_volatile (a.volatile_storage key) o)

  abbrev IsRead : Node H → List ℕ → Read H → Type 0
  IsRead a key r =
      (held_value r.obj ≡ value_of a key) × (r.obj.complete ≡ true) × (r.obj.fetching ≡ false)

  finish-IsRead :
      (A : Answers) (lazy : Bool) (a : Node H) (key : List ℕ) (calls : List ListenerCall)
      (o : CachedObject)
      → held_value o ≡ value_of a key
      → IsRead a key (finish A lazy a key calls o)
  unfolding finish held_value
  finish-IsRead A lazy a key calls o h = (h, refl, refl)

  read_stored-IsRead :
      (A : Answers) (lazy : Bool) (a : Node H) (key : List ℕ) (calls : List ListenerCall)
      (o : CachedObject)
      → (r : ℤ × Option (List ℕ)) → o.place ≡ nowhere
      → r.0 ≢ minus_one
      → r.1 ≡ value_of a key
      → IsRead a key (read_stored A lazy a key calls o r)
  unfolding read_stored got_stored held_value
  read_stored-IsRead A lazy a key calls o (negsuc zero, v) absent fine e = absurd (fine refl)
  read_stored-IsRead A lazy a key calls o (negsuc (suc n), none) absent fine e =
      finish-IsRead A lazy a key calls o (rw absent e)
  read_stored-IsRead A lazy a key calls o (negsuc (suc n), some v) absent fine e =
      finish-IsRead A lazy a key calls _ e
  read_stored-IsRead A lazy a key calls o (pos n, none) absent fine e =
      finish-IsRead A lazy a key calls o (rw absent e)
  read_stored-IsRead A lazy a key calls o (pos n, some v) absent fine e =
      finish-IsRead A lazy a key calls _ e

  fetch_as :
      (a : Node H) (key : List ℕ) (A : Answers) (lazy : Bool) (calls : List ListenerCall)
      (o : CachedObject)
      → (v : Option VolatileObject) → a.volatile_storage key ≡ v
      → IsRead a key (fetch_after A lazy a key calls (got_volatile v o))
      → IsRead a key (fetch_mine A lazy a key calls o)
  unfolding fetch_mine
  fetch_as a key A lazy calls o v e h =
      subst
        (λ (w : Option VolatileObject).
          IsRead a key (fetch_after A lazy a key calls (got_volatile w o)))
        (sym e) h

  -- With a volatile value in the object.
  fetch_after-volatile :
      (A : Answers) (lazy : Bool) (a : Node H) (key : List ℕ) (calls : List ListenerCall)
      (v : CachedObject)
      → is_there v.place ≡ true
      → (v.dlen == 0) ≡ false
      → some v.content ≡ value_of a key
      → IsRead a key (fetch_after A lazy a key calls v)
  unfolding fetch_after held_value
  fetch_after-volatile A lazy a key calls v there bytes e =
      let both : (is_there v.place && not (v.dlen == 0)) ≡ true = ground arith in
      let held : held_value v ≡ value_of a key = rw there e in
      subst (IsRead a key) (sym (if_is true both _ _)) (finish-IsRead A lazy a key calls v held)

  -- Without one.
  fetch_after-stored :
      (A : Answers) (lazy : Bool) (a : Node H) (key : List ℕ) (calls : List ListenerCall)
      (v : CachedObject)
      → v.place ≡ nowhere
      → (H.fetch a.storage key).0 ≢ minus_one
      → stored_of a key ≡ value_of a key
      → IsRead a key (fetch_after A lazy a key calls v)
  unfolding fetch_after held_value
  fetch_after-stored A lazy a key calls v absent fine e =
      let gone : is_there v.place ≡ false = ap is_there absent in
      let neither : (is_there v.place && not (v.dlen == 0)) ≡ false = ground arith in
      subst (IsRead a key) (sym (if_is false neither _ _))
        (elim (Bool-cases a.use_persistent_storage) [
          | inl u ↦ subst (IsRead a key) (sym (if_is true u _ _)) (
              read_stored-IsRead A lazy a key calls v (H.fetch a.storage key) absent fine
                (sym (if_is true u _ _) ∙ e))
          | inr m ↦ subst (IsRead a key) (sym (if_is false m _ _)) (
              finish-IsRead A lazy a key calls v
                (if_is false gone _ _ ∙ sym (if_is false m _ _) ∙ e))
        ])

  -- arc_ops_fetch, on a key of this node, for an object without data, where the storage's fetch does
  -- not fail: the object is complete and not fetching, and it has what value_of says, a volatile value
  -- or else what the storage has, or else nothing.
  pub fetch_mine-value_of :
      (A : Answers) (lazy : Bool) (a : Node H) (key : List ℕ) (calls : List ListenerCall)
      (o : CachedObject)
      → o.place ≡ nowhere
      → (H.fetch a.storage key).0 ≢ minus_one
      → let r = fetch_mine A lazy a key calls o in
        (held_value r.obj ≡ value_of a key) × (r.obj.complete ≡ true) × (r.obj.fetching ≡ false)
  unfolding fetch_mine got_volatile
  fetch_mine-value_of A lazy a key calls o absent fine =
      elim (Option-cases (a.volatile_storage key)) [
        | inl n ↦
            fetch_as a key A lazy calls o none n
              (fetch_after-stored A lazy a key calls o absent fine (sym (value_of-stored a key n)))
        | inr (v, e) ↦ fetch_as a key A lazy calls o (some v) e (elim (Bool-cases (v.dlen == 0)) [
          | inl z ↦
              subst (λ (w : CachedObject). IsRead a key (fetch_after A lazy a key calls w))
                (sym (if_is true z _ _))
                (fetch_after-stored A lazy a key calls o absent fine
                  (sym (value_of-empty a key v e z)))
          | inr m ↦
              subst (λ (w : CachedObject). IsRead a key (fetch_after A lazy a key calls w))
                (sym (if_is false m _ _))
                (fetch_after-volatile A lazy a key calls _ (is_placed v.dlen) m
                  (sym (value_of-volatile a key v e m)))
        ])
      ]
