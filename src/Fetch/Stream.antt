-- ===== src/Fetch/Stream.antt =====
-- What a listener of src/arc_ops.c hears of an object that arrives in pieces.
use libgroupcache.Base.{
  ℕ, ◌+◌, ◌<◌, ◌≤◌, Bool, true, false, Bool-cases, Option, some, List, [], ◌∷◌, ◌++◌, append_assoc,
  append-nil, length, length-append, ltb, ◌==◌, one, count, if◌then◌else◌, ◌≡◌, ◌≢◌, refl, sym, ap,
  ◌∙◌, subst, inl, inr, arith, ℤ,
}
use libgroupcache.Base.Words.{add64, u64_mod}
use libgroupcache.Fetch.{
  inner, heap, dbuf_size, ListenerCall, told_data, told_end, told_error, Fetch, ReadEvent,
  read_done, read_data, Answers, event_cb, notify, notify_complete, on_done, on_data, listeners_cb,
  async_cb,
}

if_both {ℓ κ} :
    {A : Type ℓ} (b : Bool) (P : A → Type κ) {x y : A} → P x → P y → P (if b then x else y)
if_both true P p q = p
if_both false P p q = q

if_true {ℓ} : {A : Type ℓ} (b : Bool) → b ≡ true → (x y : A) → (if b then x else y) ≡ x
if_true b e x y = rw e refl

heap-ne-inner : heap ≢ inner
heap-ne-inner = λ e. cc

inner_fits : (n : ℕ) → (if ltb dbuf_size n then heap else inner) ≡ inner → n ≤ dbuf_size
inner_fits n h = elim (Bool-cases (ltb dbuf_size n)) [
  | inl more ↦ let e : heap ≡ inner = rw more at h in absurd (heap-ne-inner e)
  | inr few ↦ ground arith
]

-- The bytes that a call has for a listener.
unfoldable pub bytes_for : ℕ → ListenerCall → List ℕ
bytes_for l (told_data k bytes total) = if l == k then bytes else []
bytes_for l (told_end k n) = []
bytes_for l (told_error k) = []

-- The bytes that a listener heard, and how often it heard of the end.
unfoldable pub heard : ℕ → List ListenerCall → List ℕ
heard l [] = []
heard l (c ∷ calls) = heard l calls ++ bytes_for l c

unfoldable pub end_for : ℕ → ListenerCall → ℕ
end_for l (told_data k bytes total) = 0
end_for l (told_end k n) = one l k
end_for l (told_error k) = 0

unfoldable pub ends : ℕ → List ListenerCall → ℕ
ends l [] = 0
ends l (c ∷ calls) = end_for l c + ends l calls

-- A listener that answers 0 to all that it hears.
abbrev pub Listens : Answers → ℕ → Type 0
Listens A l = (calls : List ListenerCall) (c : ListenerCall) → A calls c ≡ true

notify-others :
    (A : Answers) (l : ℕ) (ls bytes : List ℕ) (total : ℕ) (calls : List ListenerCall)
    → count l ls ≡ 0
    → (count l (notify A ls bytes total calls).0 ≡ 0)
      × (heard l (notify A ls bytes total calls).1 ≡ heard l calls)
      × (ends l (notify A ls bytes total calls).1 ≡ ends l calls)
unfolding notify count one heard bytes_for ends end_for
notify-others A l [] bytes total calls absent = (refl, refl, refl)
notify-others A l (k ∷ ls) bytes total calls absent =
    let other : (l == k) ≡ false = ground arith in
    let rest = notify-others A l ls bytes total (told_data k bytes total ∷ calls) (ground arith) in
    let same : heard l (told_data k bytes total ∷ calls) ≡ heard l calls =
      rw other (append-nil (heard l calls)) in
    let kept : count l (k ∷ (notify A ls bytes total (told_data k bytes total ∷ calls)).0) ≡ 0 =
      let r = rest.0 in ground arith in
    (
      if_both (A calls (told_data k bytes total)) (λ xs. count l xs ≡ 0) kept rest.0,
      rest.1 ∙ same,
      rest.2 ∙ ground arith,
    )

-- The listener that is once among those of the object.
notify-heard :
    (A : Answers) (l : ℕ) (ls bytes : List ℕ) (total : ℕ) (calls : List ListenerCall)
    → Listens A l
    → count l ls ≡ 1
    → (count l (notify A ls bytes total calls).0 ≡ 1)
      × (heard l (notify A ls bytes total calls).1 ≡ heard l calls ++ bytes)
      × (ends l (notify A ls bytes total calls).1 ≡ ends l calls)
unfolding notify count one heard bytes_for ends end_for
notify-heard A l [] bytes total calls listens present = absurd (ground arith)
notify-heard A l (k ∷ ls) bytes total calls listens present = elim (Bool-cases (l == k)) [
  | inl own ↦
      (let rest =
          notify-others A l ls bytes total (told_data k bytes total ∷ calls) (ground arith) in
        let told : heard l (told_data k bytes total ∷ calls) ≡ heard l calls ++ bytes =
          rw own refl in
        let kept : count l (k ∷ (notify A ls bytes total (told_data k bytes total ∷ calls)).0) ≡ 1 =
          let r = rest.0 in ground arith in
        (rw (listens calls (told_data k bytes total)) kept, rest.1 ∙ told, rest.2 ∙ ground arith))
  | inr other ↦
      (let rest =
          notify-heard A l ls bytes total (told_data k bytes total ∷ calls) listens
            (ground arith) in
        let told : heard l (told_data k bytes total ∷ calls) ≡ heard l calls =
          rw other (append-nil (heard l calls)) in
        let kept : count l (k ∷ (notify A ls bytes total (told_data k bytes total ∷ calls)).0) ≡ 1 =
          let r = rest.0 in ground arith in
        (
          if_both (A calls (told_data k bytes total)) (λ xs. count l xs ≡ 1) kept rest.0,
          rest.1 ∙ ap (λ (h : List ℕ). h ++ bytes) told,
          rest.2 ∙ ground arith,
        ))
]

notify_complete-ends :
    (l n : ℕ) (ls : List ℕ) (calls : List ListenerCall)
    → (heard l (notify_complete ls n calls) ≡ heard l calls)
      × (ends l (notify_complete ls n calls) ≡ count l ls + ends l calls)
unfolding notify_complete count heard bytes_for ends end_for
notify_complete-ends l n [] calls = (refl, ground arith)
notify_complete-ends l n (k ∷ ls) calls =
    let rest = notify_complete-ends l n ls (told_end k n ∷ calls) in
    (rest.0 ∙ append-nil (heard l calls), rest.1 ∙ ground arith)

unfoldable pub concat : List (List ℕ) → List ℕ
concat [] = []
concat (c ∷ cs) = c ++ concat cs

-- The callback, for each piece of the data.
unfoldable pub receive : Answers → List (List ℕ) → ℕ → Fetch → Fetch
receive A [] total f = f
receive A (c ∷ cs) total f = receive A cs total (async_cb A read_data c total f).0

-- An object that arrives: it has the bytes, and the listener, which is once in its list, heard them and
-- not of the end; what is in dbuf fits.
pub record IsStreaming (l : ℕ) (f : Fetch) (got : List ℕ) : Type 0 where
  pub ls : List ℕ
  pub res : f.obj.has_res ≡ true
  pub has : f.obj.listeners ≡ some ls
  pub once : count l ls ≡ 1
  pub content : f.obj.content ≡ got
  pub size : f.obj.dlen ≡ length got
  pub fits : f.obj.place ≡ inner → f.obj.dlen ≤ dbuf_size
  pub told : heard l f.calls ≡ got
  pub not_ended : ends l f.calls ≡ 0

async_cb-event :
    (A : Answers) (e : ReadEvent) (bytes ls : List ℕ) (total : ℕ) (f : Fetch)
    → f.obj.has_res ≡ true
    → f.obj.listeners ≡ some ls
    → async_cb A e bytes total f ≡ event_cb A e ls bytes total f
unfolding async_cb listeners_cb
async_cb-event A e bytes ls total f res has =
    if_true f.obj.has_res res _ _
    ∙ ap (λ (o : Option (List ℕ)). listeners_cb A e o bytes total f) has

empty : (xs : List ℕ) → (length xs == 0) ≡ true → xs ≡ []
empty [] h = refl
empty (x ∷ xs) h = absurd (ground arith)

on_data-IsStreaming :
    (A : Answers) (l : ℕ) (bytes got : List ℕ) (total : ℕ) (f : Fetch)
    → Listens A l
    → length got + length bytes < u64_mod
    → (i : IsStreaming l f got) → IsStreaming l (on_data A i.ls bytes total f) (got ++ bytes)
unfolding on_data
on_data-IsStreaming A l bytes got total f listens small i =
    let (once, told, not_ended) = notify-heard A l i.ls bytes total f.calls listens i.once in
    let len = length-append got bytes in
    let size : add64 f.obj.dlen (length bytes) ≡ length (got ++ bytes) =
      let z = i.size in ground arith in
    let fits = inner_fits (add64 f.obj.dlen (length bytes)) in
    elim (Bool-cases (length bytes == 0)) [
      | inr more ↦ record {
        ls = (notify A i.ls bytes total f.calls).0;
        res = i.res;
        has = rw more refl;
        once = once;
        content = ap (λ (c : List ℕ). c ++ bytes) i.content;
        size = size;
        fits = fits;
        told = rw more (told ∙ ap (λ (c : List ℕ). c ++ bytes) i.told);
        not_ended = rw more (not_ended ∙ i.not_ended);
      }
      | inl none_ ↦ record {
        ls = i.ls;
        res = i.res;
        has = rw none_ refl;
        once = i.once;
        content = ap (λ (c : List ℕ). c ++ bytes) i.content;
        size = size;
        fits = fits;
        told =
            rw none_
              (i.told ∙ sym (ap (λ (c : List ℕ). got ++ c) (empty bytes none_) ∙ append-nil got));
        not_ended = rw none_ i.not_ended;
      }
    ]

receive-IsStreaming :
    (A : Answers) (l : ℕ) (cs : List (List ℕ)) (got : List ℕ) (total : ℕ) (f : Fetch)
    → Listens A l
    → length got + length (concat cs) < u64_mod
    → IsStreaming l f got
    → IsStreaming l (receive A cs total f) (got ++ concat cs)
unfolding receive concat
receive-IsStreaming A l [] got total f listens small i =
    subst (IsStreaming l f) (sym (append-nil got)) i
receive-IsStreaming A l (c ∷ cs) got total f listens small i =
    let len = length-append c (concat cs) in
    let len' = length-append got c in
    let j = on_data-IsStreaming A l c got total f listens (omega (arith, len, small)) i in
    let j' : IsStreaming l (async_cb A read_data c total f).0 (got ++ c) =
      subst (λ (r : Fetch × ℤ). IsStreaming l r.0 (got ++ c))
        (sym (async_cb-event A read_data c i.ls total f i.res i.has)) j in
    subst (IsStreaming l (receive A cs total (async_cb A read_data c total f).0))
      (append_assoc got c (concat cs))
      (receive-IsStreaming A l cs (got ++ c) total _ listens (omega (arith, len, len', small)) j')

-- arc_ops_fetch_from_peer_async_cb, for the pieces of a value and then for its end, on an object that
-- has the bytes that a listener heard before, of at most 2 ^ 64 - 1 bytes in all: the object is complete and has
-- the bytes in order, dbuf is not overrun, and the listener, if it answers 0 to all, heard all
-- bytes in order and once of the end, whatever other listeners answer.
pub async_cb-streams :
    (A : Answers) (l : ℕ) (cs : List (List ℕ)) (got : List ℕ) (total : ℕ) (f : Fetch)
    → Listens A l
    → length got + length (concat cs) < u64_mod
    → IsStreaming l f got
    → let g = (async_cb A read_done [] total (receive A cs total f)).0 in
      (g.obj.content ≡ got ++ concat cs)
      × (g.obj.complete ≡ true)
      × (g.obj.fetching ≡ false)
      × (g.obj.place ≡ inner → g.obj.dlen ≤ dbuf_size)
      × (heard l g.calls ≡ got ++ concat cs)
      × (ends l g.calls ≡ 1)
unfolding on_done
async_cb-streams A l cs got total f listens small i =
    let r = receive A cs total f in
    let j = receive-IsStreaming A l cs got total f listens small i in
    let (told, ended) = notify_complete-ends l r.obj.dlen j.ls r.calls in
    let ended_once : ends l (notify_complete j.ls r.obj.dlen r.calls) ≡ 1 =
      let o = j.once in let n = j.not_ended in ground arith in
    rw (async_cb-event A read_done [] j.ls total r j.res j.has)
      (j.content, refl, refl, j.fits, told ∙ j.told, ended_once)
