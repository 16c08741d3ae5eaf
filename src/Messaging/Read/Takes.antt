-- ===== src/Messaging/Read/Takes.antt =====
-- What the parts of read_message, src/messaging.c, take from a socket.
use libgroupcache.Base.{
  ℕ, zero, suc, ◌+◌, ◌-◌, ◌*◌, ◌^◌, ◌≤◌, ◌<◌, ◌≡◌, Bool, true, false, Option, List, [], ◌∷◌, subst,
  sym, length, take, drop, length-drop, arith, leb, ◌==◌, if_both,
}
use libgroupcache.Base.Words.{min_of}
use libgroupcache.AsyncReader.{record_separator}
use libgroupcache.Messaging.Socket.{
  ReadStep, arrives, interrupted, times_out, breaks, got, timed_out, broken, Got, socket, Socket,
  read_steps, read_socket,
}
use libgroupcache.Messaging.Read.{
  Reading, reading, append_to, too_long, Part, goes_on, stops, Outcome, received, refused, overruns,
  unfinished, Filling, needs, gives_up, fill_round, fill, rounds_for, next_record, separate,
  read_separator, then_separator, v1_record, v2_record,
}

-- The bytes and the reads that are left.
abbrev pub left_in : Socket → ℕ
left_in s = length s.bytes + length s.reads

-- A read takes a byte or one of the reads to come, unless it gets nothing.
unfoldable pub Lowers : ℕ → Got → Socket → Type 0
Lowers n (got []) s = left_in s ≤ n
Lowers n (got (x ∷ xs)) s = left_in s < n
Lowers n timed_out s = left_in s < n
Lowers n broken s = left_in s ≤ n

Lowers-more : (m n : ℕ) (rb : Got) (s : Socket) → m ≤ n → Lowers m rb s → Lowers n rb s
unfolding Lowers
Lowers-more m n (got []) s le h = omega arith
Lowers-more m n (got (x ∷ xs)) s le h = omega arith
Lowers-more m n timed_out s le h = omega arith
Lowers-more m n broken s le h = omega arith

got-Lowers :
    (k : ℕ) (bytes : List ℕ) (reads : List ReadStep) (n : ℕ)
    → length bytes + length reads ≤ n
    → Lowers n (got (take (suc k) bytes)) (socket (drop (suc k) bytes) reads)
unfolding Lowers
got-Lowers k [] reads n le = omega arith
got-Lowers k (x ∷ bytes) reads n le = omega (arith, length-drop k bytes)

pub read_steps-Lowers :
    (it : Bool) (k : ℕ) (bytes : List ℕ) (reads : List ReadStep)
    → Lowers
        (length bytes + length reads)
        (read_steps it (suc k) bytes reads).0
        (read_steps it (suc k) bytes reads).1
unfolding read_steps Lowers
read_steps-Lowers it k bytes [] = got-Lowers k bytes [] _ (omega arith)
read_steps-Lowers it k bytes (arrives n ∷ reads) =
    let j = min_of (suc k) (n + 1) - 1 in
    let e : min_of (suc k) (n + 1) ≡ suc j = ground arith in
    subst
      (λ j.
        Lowers (length bytes + suc (length reads)) (got (take j bytes))
          (socket (drop j bytes) reads))
      (sym e) (got-Lowers j bytes reads _ (omega arith))
read_steps-Lowers it k bytes (interrupted ∷ reads) =
    Lowers-more _ _ _ _ (omega arith) (read_steps-Lowers it k bytes reads)
read_steps-Lowers true k bytes (times_out ∷ reads) =
    Lowers-more _ _ _ _ (omega arith) (read_steps-Lowers true k bytes reads)
read_steps-Lowers false k bytes (times_out ∷ reads) = omega arith
read_steps-Lowers it k bytes (breaks ∷ reads) = omega arith

-- An outcome that the code can have.
unfoldable pub Ends : Outcome → Type 0
Ends (received n a) = Unit
Ends (refused a) = Unit
Ends (overruns a) = Unit
Ends (unfinished a) = ⊥

-- A part that goes on has less in the socket than `n`, or ends.
unfoldable pub Falls : ℕ → Part → Type 0
Falls n (goes_on a) = left_in a.sock < n
Falls n (stops r) = Ends r

Fell : ℕ → Filling → Type 0
Fell n (needs len a) = left_in a.sock < n
Fell n (gives_up a) = Unit

fill_round-Fell :
    (n0 len n : ℕ) (rb : Got) (a : Reading) → Lowers n rb a.sock → Fell n (fill_round n0 len rb a)
unfolding Lowers Fell fill_round
fill_round-Fell n0 len n timed_out a h = h
fill_round-Fell n0 len n broken a h = tt
fill_round-Fell n0 len n (got []) a h = tt
fill_round-Fell n0 len n (got (x ∷ xs)) a h =
    if_both (Fell n) (too_long (append_to (x ∷ xs) a.out)) _ _ tt h

Falls-more : (m n : ℕ) (r : Part) → m ≤ n → Falls m r → Falls n r
unfolding Falls
Falls-more m n (goes_on a) le h = omega arith
Falls-more m n (stops r) le h = h

-- The loop on the bytes, for the rounds given.
Fills : Bool → ℕ → ℕ → Type 0
Fills it n0 rounds =
    (len : ℕ) (a : Reading)
    → left_in a.sock + 1 ≤ rounds
    → Falls (left_in a.sock + 1) (fill it n0 rounds len a)

fill_next-Falls :
    (it : Bool) (n0 rounds n : ℕ) (f : Filling)
    → Fills it n0 rounds
    → Fell n f
    → n ≤ rounds
    → Falls
        (n + 1)
        (elim f [ needs len' b ↦ fill it n0 rounds len' b | gives_up b ↦ stops (refused b) ])
unfolding Fills Fell Falls Ends
fill_next-Falls it n0 rounds n (needs len b) fills h le =
    Falls-more (left_in b.sock + 1) (n + 1) _ (omega arith) (fills len b (omega arith))
fill_next-Falls it n0 rounds n (gives_up b) fills h le = tt

fill-Falls : (it : Bool) (n0 rounds : ℕ) → Fills it n0 rounds
unfolding fill Falls Ends Fills
fill-Falls it n0 zero len a le = absurd (omega arith)
fill-Falls it n0 (suc rounds) zero a le = omega arith
fill-Falls it n0 (suc rounds) (suc len) a le =
    let (rb, s) = read_socket it (suc len) a.sock in
    let low = read_steps-Lowers it len a.sock.bytes a.sock.reads in
    fill_next-Falls it n0 rounds (left_in a.sock) _ (fill-Falls it n0 rounds)
      (fill_round-Fell n0 (suc len) (left_in a.sock) _ (reading s a) low) (omega arith)

-- A record or a chunk, from behind its length.
filled-Falls :
    (it : Bool) (n0 len n : ℕ) (a : Reading)
    → left_in a.sock < n
    → Falls n (fill it n0 (rounds_for a.sock) len a)
unfolding Fills
filled-Falls it n0 len n a h =
    Falls-more (left_in a.sock + 1) n _ (omega arith)
      (fill-Falls it n0 (rounds_for a.sock) len a (omega arith))

next_record-Falls :
    (n : ℕ) (a : Reading) (after : List (Option (List ℕ)))
    → left_in a.sock < n
    → Falls n (next_record a after)
unfolding next_record Falls Ends
next_record-Falls n a [] h = tt
next_record-Falls n a (o ∷ after) h = h

separate-Falls :
    (n0 n : ℕ) (rb : Got) (a : Reading) → Lowers n rb a.sock → Falls n (separate n0 rb a)
unfolding separate Lowers Falls Ends
separate-Falls n0 n (got []) a h = tt
separate-Falls n0 n (got (x ∷ [])) a h =
    if_both (Falls n) (x == record_separator) _ _ (next_record-Falls n a a.after h)
      (if_both (Falls n) (x == 0) _ _ tt tt)
separate-Falls n0 n (got (x ∷ y ∷ xs)) a h = tt
separate-Falls n0 n timed_out a h = tt
separate-Falls n0 n broken a h = tt

read_separator-Falls :
    (it : Bool) (n0 n : ℕ) (a : Reading) → left_in a.sock < n → Falls n (read_separator it n0 a)
read_separator-Falls it n0 n a h =
    let (rb, s) = read_socket it 1 a.sock in
    let low = read_steps-Lowers it 0 a.sock.bytes a.sock.reads in
    separate-Falls n0 n _ (reading s a) (Lowers-more (left_in a.sock) n _ s (omega arith) low)

then_separator-Falls :
    (it : Bool) (n0 n : ℕ) (r : Part) → Falls n r → Falls n (then_separator it n0 r)
unfolding Falls
then_separator-Falls it n0 n (goes_on a) h = read_separator-Falls it n0 n a h
then_separator-Falls it n0 n (stops r) h = h

pub v2_record-Falls :
    (it : Bool) (n0 n : ℕ) (rb : Got) (a : Reading)
    → Lowers n rb a.sock
    → Falls n (v2_record it n0 rb a)
unfolding v2_record Lowers Falls Ends
v2_record-Falls it n0 n (got []) a h = tt
v2_record-Falls it n0 n (got (b ∷ [])) a h = h
v2_record-Falls it n0 n (got (b ∷ d ∷ [])) a h = h
v2_record-Falls it n0 n (got (b ∷ d ∷ e ∷ [])) a h = h
v2_record-Falls it n0 n (got (b ∷ d ∷ e ∷ f ∷ [])) a h =
    let len = b * 2 ^ 24 + d * 2 ^ 16 + e * 2 ^ 8 + f in
    if_both (Falls n) (leb (2 ^ 31) len) _ _ tt
      (then_separator-Falls it n0 n _ (filled-Falls it n0 len n a h))
v2_record-Falls it n0 n (got (b ∷ d ∷ e ∷ f ∷ g ∷ xs)) a h = h
v2_record-Falls it n0 n timed_out a h = h
v2_record-Falls it n0 n broken a h = tt

pub v1_record-Falls :
    (it : Bool) (n0 n : ℕ) (rb : Got) (a : Reading)
    → Lowers n rb a.sock
    → Falls n (v1_record it n0 rb a)
unfolding v1_record Lowers Falls Ends
v1_record-Falls it n0 n (got []) a h = tt
v1_record-Falls it n0 n (got (b ∷ [])) a h = h
v1_record-Falls it n0 n (got (b ∷ d ∷ [])) a h =
    if_both (Falls n) (b * 256 + d == 0) _ _ (read_separator-Falls it n0 n a h)
      (filled-Falls it n0 (b * 256 + d) n a h)
v1_record-Falls it n0 n (got (b ∷ d ∷ e ∷ xs)) a h = h
v1_record-Falls it n0 n timed_out a h = h
v1_record-Falls it n0 n broken a h = tt
