-- ===== src/Messaging/Read.antt =====
-- read_message of src/messaging.c, which waits for a whole message on a socket.
--
-- The room on the stack for `char buf[record_len]` is left out; a length from 2^31 on, which is negative as
-- the int that read_socket takes, is an outcome of its own.
pub mod Steady
pub mod Fill
pub mod Records
pub mod RoundTrip
pub mod Takes
pub mod Returns
use libgroupcache.Base.{
  ℕ, zero, suc, ◌+◌, ◌-◌, ◌*◌, ◌^◌, Bool, true, false, not, ◌&&◌, Option, none, some, List, [], ◌∷◌,
  ◌++◌, length, take, ltb, leb, ◌==◌, if◌then◌else◌,
}
use libgroupcache.AsyncReader.{record_separator, noop, protocol_version, is_v1}
use libgroupcache.Messaging.{hdr_check}
use libgroupcache.Messaging.Socket.{Socket, Got, got, timed_out, broken, read_socket}

-- SHARDCACHE_MSG_MAX_RECORD_LEN
abbrev pub record_max : ℕ
record_max = 2 ^ 28

-- The array `records`, none for a NULL: those before the current one, the latest first, the current
-- one, and those after it.
pub record Reading : Type 0 where
  pub sock : Socket
  pub before : List (Option (List ℕ))
  pub out : Option (List ℕ)
  pub after : List (Option (List ℕ))

abbrev pub reading : Socket → Reading → Reading
reading s a = record a { sock = s }

-- fbuf_add_binary and fbuf_set_used on `out`, where there is one.
abbrev pub append_to : List ℕ → Option (List ℕ) → Option (List ℕ)
append_to xs none = none
append_to xs (some ys) = some (ys ++ xs)

abbrev pub cut_to : ℕ → Option (List ℕ) → Option (List ℕ)
cut_to n none = none
cut_to n (some ys) = some (take n ys)

abbrev pub cut_back : ℕ → Reading → Reading
cut_back n a = record a { out = cut_to n a.out }

unfoldable pub too_long : Option (List ℕ) → Bool
too_long none = false
too_long (some ys) = ltb record_max (length ys)

-- What the function comes to: it returns a number or -1, it reads with a negative length, or it is
-- not done within the rounds given.
pub data Outcome : Type 0 where
  received : ℕ → Reading → Outcome
  refused : Reading → Outcome
  overruns : Reading → Outcome
  unfinished : Reading → Outcome

-- A part of the loop: it goes on to the next, or comes to an end.
pub data Part : Type 0 where
  goes_on : Reading → Part
  stops : Outcome → Part

-- A round of the loop on the bytes of a record or a chunk: what is left to read, or -1.
pub data Filling : Type 0 where
  needs : ℕ → Reading → Filling
  gives_up : Reading → Filling

unfoldable pub fill_round : ℕ → ℕ → Got → Reading → Filling
fill_round initial_len len timed_out a = needs len a
fill_round initial_len len broken a = gives_up (cut_back initial_len a)
fill_round initial_len len (got []) a = gives_up (cut_back initial_len a)
fill_round initial_len len (got (x ∷ xs)) a =
    let b = record a { out = append_to (x ∷ xs) a.out } in
    if too_long b.out then gives_up (cut_back initial_len b) else needs (len - length (x ∷ xs)) b

-- while (record_len != 0), while (chunk_len != 0)
unfoldable pub fill : Bool → ℕ → ℕ → ℕ → Reading → Part
fill ignore_timeout initial_len zero len a = stops (unfinished a)
fill ignore_timeout initial_len (suc rounds) zero a = goes_on a
fill ignore_timeout initial_len (suc rounds) (suc len) a =
    let (rb, s) = read_socket ignore_timeout (suc len) a.sock in
    elim (fill_round initial_len (suc len) rb (reading s a)) [
      | needs len' b ↦ fill ignore_timeout initial_len rounds len' b
      | gives_up b ↦ stops (refused b)
    ]

-- More rounds than a loop takes: each takes a byte or one of the reads to come.
abbrev pub rounds_for : Socket → ℕ
rounds_for s = length s.bytes + length s.reads + 1

-- The next record, or the end if there is no room for one.
unfoldable pub next_record : Reading → List (Option (List ℕ)) → Part
next_record a [] = stops (received (length a.before + 2) a)
next_record a (o ∷ after) = goes_on (record a { before = a.out ∷ a.before; out = o; after = after })

-- The separator behind a record
unfoldable pub separate : ℕ → Got → Reading → Part
separate initial_len (got (rsep ∷ [])) a =
    if rsep == record_separator
    then next_record a a.after
    else if rsep == 0
    then stops (received (length a.before + 1) a)
    else stops (refused (cut_back initial_len a))
separate initial_len _ a = stops (refused (cut_back initial_len a))

abbrev pub read_separator : Bool → ℕ → Reading → Part
read_separator ignore_timeout initial_len a =
    let (rb, s) = read_socket ignore_timeout 1 a.sock in separate initial_len rb (reading s a)

abbrev pub then_separator : Bool → ℕ → Part → Part
then_separator ignore_timeout initial_len (goes_on a) = read_separator ignore_timeout initial_len a
then_separator ignore_timeout initial_len (stops r) = stops r

-- A record, with the length that was read for it; a part of a length is passed over.
unfoldable pub v2_record : Bool → ℕ → Got → Reading → Part
v2_record ignore_timeout initial_len (got (b ∷ d ∷ e ∷ f ∷ [])) a =
    let record_len = b * 2 ^ 24 + d * 2 ^ 16 + e * 2 ^ 8 + f in
    let filled = fill ignore_timeout initial_len (rounds_for a.sock) record_len a in
    if leb (2 ^ 31) record_len
    then stops (overruns a)
    else then_separator ignore_timeout initial_len filled
v2_record ignore_timeout initial_len (got []) a = stops (refused a)
v2_record ignore_timeout initial_len broken a = stops (refused a)
v2_record ignore_timeout initial_len _ a = goes_on a

-- A chunk, with its length.
unfoldable pub v1_record : Bool → ℕ → Got → Reading → Part
v1_record ignore_timeout initial_len (got (b ∷ d ∷ [])) a =
    let chunk_len = b * 256 + d in
    if chunk_len == 0
    then read_separator ignore_timeout initial_len a
    else fill ignore_timeout initial_len (rounds_for a.sock) chunk_len a
v1_record ignore_timeout initial_len (got []) a = stops (refused a)
v1_record ignore_timeout initial_len broken a = stops (refused a)
v1_record ignore_timeout initial_len _ a = goes_on a

-- A round of the loop, behind the header.
unfoldable pub round : Bool → ℕ → ℕ → Reading → Part
round ignore_timeout version initial_len a =
    let (rb, s) = read_socket ignore_timeout (if is_v1 version then 2 else 4) a.sock in
    if is_v1 version
    then v1_record ignore_timeout initial_len rb (reading s a)
    else v2_record ignore_timeout initial_len rb (reading s a)

unfoldable pub records_loop : Bool → ℕ → ℕ → ℕ → Reading → Outcome
records_loop ignore_timeout version initial_len zero a = unfinished a
records_loop ignore_timeout version initial_len (suc rounds) a =
    elim (round ignore_timeout version initial_len a) [
      | goes_on b ↦ records_loop ignore_timeout version initial_len rounds b
      | stops r ↦ r
    ]

-- The bytes that only keep the connection alive, and the one after them; `hdr` is what the variable
-- holds, and stays if nothing is read.
unfoldable pub first_or : (ℕ → Socket → ℕ × Socket) → ℕ → Got → Socket → ℕ × Socket
first_or more hdr (got (b ∷ bs)) s = if b == noop then more b s else (b, s)
first_or more hdr _ s = (hdr, s)

unfoldable pub first_byte : Bool → ℕ → ℕ → Socket → ℕ × Socket
first_byte ignore_timeout zero hdr s = (hdr, s)
first_byte ignore_timeout (suc rounds) hdr s =
    let (rb, s') = read_socket ignore_timeout 1 s in
    first_or (λ b t. first_byte ignore_timeout rounds b t) hdr rb s'

-- Whether the bytes are SHC_MAGIC with a version that is known; the version is a signed char.
unfoldable pub magic_version : ℕ → Got → Option ℕ
magic_version a (got (b ∷ c ∷ v ∷ [])) =
    if (a == 115) && ((b == 104) && (c == 99))
    then (if ltb protocol_version v && ltb v 128 then none else some v)
    else none
magic_version a _ = none

-- The header that is read, if it is one.
unfoldable pub header : Got → Option ℕ
header (got (h ∷ [])) = if hdr_check h then some h else none
header _ = none

-- What the caller gets, with *ohdr if it was set.
pub record Reply : Type 0 where
  pub ohdr : Option ℕ
  pub outcome : Outcome

abbrev pub used_by : Option (List ℕ) → ℕ
used_by none = 0
used_by (some xs) = length xs

unfoldable pub read_body : Bool → Option ℕ → Option ℕ → Reading → Reply
read_body ignore_timeout (some v) (some h) a = record {
  ohdr = some h;
  outcome = records_loop ignore_timeout v (used_by a.out) (rounds_for a.sock) a;
}
read_body ignore_timeout _ _ a = record { ohdr = none; outcome = refused a }

-- Behind the magic number; without it nothing more is read.
unfoldable pub read_header : Bool → Option ℕ → Reading → Reply
read_header ignore_timeout none a = record { ohdr = none; outcome = refused a }
read_header ignore_timeout (some v) a =
    let (rb, s) = read_socket ignore_timeout 1 a.sock in
    read_body ignore_timeout (some v) (header rb) (reading s a)

-- read_message; `stale` is what its variable hdr holds at the start.
unfoldable pub read_message : Bool → ℕ → List (Option (List ℕ)) → Socket → Reply
read_message ignore_timeout stale [] s = record {
  ohdr = none;
  outcome = refused (record { sock = s; before = []; out = none; after = [] });
}
read_message ignore_timeout stale (o ∷ outs) s =
    let (a, s') = first_byte ignore_timeout (rounds_for s) stale s in
    let (rb, s'') = read_socket ignore_timeout 3 s' in
    read_header ignore_timeout (magic_version a rb)
      (record { sock = s''; before = []; out = o; after = outs })
