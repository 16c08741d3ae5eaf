-- ===== src/Messaging/Read/Fill.antt =====
-- The loops of read_message of src/messaging.c over the bytes of a record, on a steady socket.
use libgroupcache.Base.{
  ℕ, zero, suc, ◌+◌, ◌-◌, ◌≤◌, ◌≡◌, refl, ◌∙◌, ap, Bool, false, Option, none, some, List, [], ◌∷◌,
  ◌++◌, length, take, drop, length-append, length-drop, append_assoc, append-nil, sym, arith,
}
use libgroupcache.Messaging.Socket.{ReadStep, got, socket, Socket, read_steps}
use libgroupcache.Messaging.Read.{
  Reading, reading, append_to, too_long, record_max, goes_on, needs, fill_round, fill,
}
use libgroupcache.Messaging.Read.Steady.{Steady, read_steps-part, take-drop, length-take_le}

-- At some bytes, with the records that there are.
abbrev pub stands :
    List ℕ
    → List ReadStep
    → List (Option (List ℕ))
    → Option (List ℕ)
    → List (Option (List ℕ))
    → Reading
stands bytes reads before out after = record {
  sock = socket bytes reads;
  before = before;
  out = out;
  after = after;
}

-- Room for so many bytes more
abbrev pub HasRoom : ℕ → Option (List ℕ) → Type 0
HasRoom n none = Unit
HasRoom n (some ys) = length ys + n ≤ record_max

append_to-append_to :
    (xs ys : List ℕ) (o : Option (List ℕ)) → append_to ys (append_to xs o) ≡ append_to (xs ++ ys) o
append_to-append_to xs ys none = refl
append_to-append_to xs ys (some zs) = ap some (append_assoc zs xs ys)

too_long-append_to :
    (n : ℕ) (xs : List ℕ) (o : Option (List ℕ))
    → length xs ≤ n
    → HasRoom n o
    → too_long (append_to xs o) ≡ false
unfolding too_long
too_long-append_to n xs none le room = refl
too_long-append_to n xs (some ys) le room = ground (arith, length-append ys xs)

HasRoom-append_to :
    (m n : ℕ) (xs : List ℕ) (o : Option (List ℕ))
    → length xs + m ≤ n
    → HasRoom n o
    → HasRoom m (append_to xs o)
HasRoom-append_to m n xs none le room = tt
HasRoom-append_to m n xs (some ys) le room = omega (arith, length-append ys xs)

fill_round-needs :
    (n0 len x : ℕ) (xs : List ℕ) (a : Reading)
    → too_long (append_to (x ∷ xs) a.out) ≡ false
    → fill_round n0 len (got (x ∷ xs)) a
      ≡ needs (len - length (x ∷ xs)) (record a { out = append_to (x ∷ xs) a.out })
unfolding fill_round
fill_round-needs n0 len x xs a e = rw e refl

-- A round of the loop.
fill-round :
    (it : Bool) (n0 rounds len : ℕ) (a : Reading) (bs : List ℕ) (s : Socket) (len' : ℕ)
    (b : Reading)
    → read_steps it (suc len) a.sock.bytes a.sock.reads ≡ (got bs, s)
    → fill_round n0 (suc len) (got bs) (reading s a) ≡ needs len' b
    → fill it n0 (suc rounds) (suc len) a ≡ fill it n0 rounds len' b
unfolding fill
fill-round it n0 rounds len a bs s len' b e f = rw (e, fill) (rw f refl)

-- The loop reads some bytes whole, within the rounds given.
abbrev pub Fills : Bool → ℕ → ℕ → Type 0
Fills it n0 rounds =
    (xs rest : List ℕ) (reads : List ReadStep) (before : List (Option (List ℕ)))
    (o : Option (List ℕ)) (after : List (Option (List ℕ)))
    → length xs + 1 ≤ rounds
    → HasRoom (length xs) o
    → Steady reads
    → (reads' : List ReadStep) × (fill it n0 rounds (length xs)
          (stands (xs ++ rest) reads before o after)
        ≡ goes_on (stands rest reads' before (append_to xs o) after))
      × Steady reads'

fill-rest :
    (it : Bool) (n0 rounds : ℕ)
    → Fills it n0 rounds
    → (x : ℕ) (xs rest : List ℕ) (reads : List ReadStep) (before : List (Option (List ℕ)))
      (o : Option (List ℕ)) (after : List (Option (List ℕ)))
    → length (x ∷ xs) + 1 ≤ suc rounds
    → HasRoom (length (x ∷ xs)) o
    → (r : List ReadStep) (k : ℕ)
    → read_steps it (length (x ∷ xs)) ((x ∷ xs) ++ rest) reads
      ≡ (got (take k (x ∷ xs)), socket (drop k (x ∷ xs) ++ rest) r)
    → 1 ≤ k
    → k ≤ length (x ∷ xs)
    → Steady r
    → (reads' : List ReadStep) × (fill it n0
          (suc rounds)
          (length (x ∷ xs))
          (stands ((x ∷ xs) ++ rest) reads before o after)
        ≡ goes_on (stands rest reads' before (append_to (x ∷ xs) o) after))
      × Steady reads'
fill-rest it n0 rounds fills x xs rest reads before o after le room r zero e low high s =
    absurd (omega arith)
fill-rest it n0 rounds fills x xs rest reads before o after le room r (suc k) e low high s =
    let taken = length-take_le k xs (omega arith) in
    let left = length-drop k xs in
    let same : suc (length xs) - length (x ∷ take k xs) ≡ length (drop k xs) = omega arith in
    let fits = too_long-append_to (suc (length xs)) (x ∷ take k xs) o (omega arith) room in
    let room' =
      HasRoom-append_to (length (drop k xs)) (suc (length xs)) (x ∷ take k xs) o (omega arith)
        room in
    let (r', e', s') =
      fills (drop k xs) rest r before (append_to (x ∷ take k xs) o) after (omega arith) room' s in
    let stepped = fill-round it n0 rounds (length xs) _ _ _ _ _ e (
      fill_round-needs n0 (suc (length xs)) x (take k xs)
        (stands (drop k xs ++ rest) r before o after) fits) in
    let added : append_to (drop k xs) (append_to (x ∷ take k xs) o) ≡ append_to (x ∷ xs) o =
      append_to-append_to (x ∷ take k xs) (drop k xs) o
      ∙ ap (λ t. append_to (x ∷ t) o) (take-drop k xs) in
    (
      r',
      stepped
          ∙ ap
              (λ n.
                fill it n0 rounds n
                  (stands (drop k xs ++ rest) r before (append_to (x ∷ take k xs) o) after))
              same
          ∙ e'
          ∙ ap (λ t. goes_on (stands rest r' before t after)) added,
      s',
    )

pub fill-steady : (it : Bool) (n0 rounds : ℕ) → Fills it n0 rounds
unfolding fill
fill-steady it n0 zero xs rest reads before o after le room st = absurd (omega arith)
fill-steady it n0 (suc rounds) [] rest reads before none after le room st = (reads, refl, st)
fill-steady it n0 (suc rounds) [] rest reads before (some ys) after le room st =
    (reads, ap (λ t. goes_on (stands rest reads before (some t) after)) (sym (append-nil ys)), st)
fill-steady it n0 (suc rounds) (x ∷ xs) rest reads before o after le room st =
    let (k, r, e, low, high, s, l) = read_steps-part it (x ∷ xs) rest reads (omega arith) st in
    fill-rest it n0 rounds (fill-steady it n0 rounds) x xs rest reads before o after le room r k e
      low high s
