-- ===== src/Messaging/Peers.antt =====
-- The commands that src/messaging.c sends to a peer and what it takes from the answer.
--
-- The connection is one that is open already; the close of one that a function opens for itself is
-- left out. fbuf_write of libhl is a parameter: whether all bytes can be written. A buffer without
-- bytes has no data.
pub mod Status
pub mod Index
use libgroupcache.Base.{
  ℕ, zero, suc, ◌+◌, ◌-◌, ◌*◌, ◌%◌, ◌^◌, Bool, true, false, not, ◌&&◌, Option, none, some, List, [],
  ◌∷◌, ◌++◌, length, ltb, ◌==◌, if◌then◌else◌, ℤ, pos, negsuc, minus_one,
}
use mathlib.Core.Option.{map}
use libgroupcache.Base.Bytes.{be32}
use libgroupcache.AsyncReader.{protocol_version}
use libgroupcache.Messaging.{
  build_message, hdr_get, hdr_set, hdr_delete, hdr_evict, hdr_get_offset, hdr_add, hdr_exists,
  hdr_touch, hdr_cas, hdr_migration_abort, hdr_migration_begin, hdr_check_peer, hdr_stats,
  hdr_error, hdr_response, res_ok, res_yes, res_exists, res_no,
}
use libgroupcache.Messaging.Socket.{Socket}
use libgroupcache.Messaging.Read.{
  Reading, Outcome, received, refused, overruns, unfinished, Reply, read_message,
}
use libgroupcache.Messaging.Read.Records.{outs_of}

-- A connection: what was written to it, whether it can be written to, and its socket for the answer.
pub record Conn : Type 0 where
  pub written : List ℕ
  pub writable : Bool
  pub sock : Socket

-- write_message: whether it returns 0.
unfoldable pub write_message : ℕ → List (List ℕ) → Conn → Bool × Conn
write_message hdr records c =
    if c.writable
    then (true, record c { written = c.written ++ build_message hdr records protocol_version })
    else (false, c)

-- What a call of read_message gives: *ohdr if it was set, the number of records, none for -1, and
-- the array.
pub record Answer : Type 0 where
  pub hdr : Option ℕ
  pub num_records : Option ℕ
  pub resp : List (Option (List ℕ))
  pub left : Socket

unfoldable pub answer_of : Option ℕ → Outcome → Answer
answer_of h (received n a) = record {
  hdr = h;
  num_records = some n;
  resp = outs_of a;
  left = a.sock;
}
answer_of h (refused a) = record { hdr = h; num_records = none; resp = outs_of a; left = a.sock }
answer_of h (overruns a) = record { hdr = h; num_records = none; resp = outs_of a; left = a.sock }
answer_of h (unfinished a) = record { hdr = h; num_records = none; resp = outs_of a; left = a.sock }

-- The variable hdr of the callers is 0 before; what it holds in read_message is taken as 0 too.
unfoldable pub read_answer : Bool → List (Option (List ℕ)) → Conn → Answer
read_answer ignore_timeout outs c =
    let r = read_message ignore_timeout 0 outs c.sock in answer_of r.ohdr r.outcome

-- hdr == SHC_HDR_... && num_records == n
unfoldable pub is_answer : ℕ → ℕ → Answer → Bool
is_answer h n a =
    let known : Bool = elim a.hdr [ none ↦ false | some h' ↦ h' == h ] in
    let counted : Bool = elim a.num_records [ none ↦ false | some n' ↦ n' == n ] in known && counted

-- *res, the first byte of resp[0].
unfoldable pub first_byte_of : List (Option (List ℕ)) → Option ℕ
first_byte_of (some (b ∷ bs) ∷ os) = some b
first_byte_of _ = none

unfoldable pub is_byte : ℕ → Option ℕ → Bool
is_byte b none = false
is_byte b (some d) = d == b

-- 0 for SHC_RES_OK, and else -1.
abbrev pub ok_or_error : Option ℕ → ℤ
ok_or_error res = if is_byte res_ok res then pos 0 else minus_one

-- A request with one buffer for the answer: `bad` is returned when the message cannot be written, and
-- `other` when the answer is not a response of one record.
unfoldable pub request : ℕ → List (List ℕ) → ℤ → ℤ → (Option ℕ → ℤ) → Conn → ℤ × Conn
request hdr records bad other rc_of c =
    let (wrote, c') = write_message hdr records c in
    let a = read_answer false (some [] ∷ []) c' in
    let rc = if is_answer hdr_response 1 a then rc_of (first_byte_of a.resp) else other in
    if wrote then (rc, record c' { sock = a.left }) else (bad, c')

-- _delete_from_peer_internal
unfoldable pub delete_internal : ℕ → List ℕ → Bool → Conn → ℤ × Conn
delete_internal hdr key expect_response c =
    let (wrote, c') = write_message hdr (key ∷ []) c in
    if expect_response
    then request hdr (key ∷ []) minus_one (pos 0) ok_or_error c
    else (if wrote then pos 0 else minus_one, c')

abbrev pub delete_from_peer : List ℕ → Bool → Conn → ℤ × Conn
delete_from_peer = delete_internal hdr_delete

abbrev pub evict_from_peer : List ℕ → Bool → Conn → ℤ × Conn
evict_from_peer = delete_internal hdr_evict

-- exists_on_peer, whose last lines return 0; without data the result is that of write_message.
unfoldable pub exists_rc : Option ℕ → ℤ
exists_rc none = pos 0
exists_rc (some b) = if b == res_yes then pos 1 else if b == res_no then pos 0 else minus_one

unfoldable pub exists_on_peer : List ℕ → Bool → Conn → ℤ × Conn
exists_on_peer key expect_response c =
    let (wrote, c') = write_message hdr_exists (key ∷ []) c in
    if expect_response
    then request hdr_exists (key ∷ []) (pos 0) (pos 0) exists_rc c
    else (pos 0, c')

-- touch_on_peer
abbrev pub touch_on_peer : List ℕ → Conn → ℤ × Conn
touch_on_peer key = request hdr_touch (key ∷ []) (pos 0) (pos 0) ok_or_error

-- check_peer
abbrev pub check_peer : Conn → ℤ × Conn
check_peer = request hdr_check_peer [] minus_one minus_one ok_or_error

-- abort_migrate_peer
abbrev pub abort_migrate_peer : Conn → ℤ × Conn
abort_migrate_peer = request hdr_migration_abort [] minus_one minus_one ok_or_error

-- migrate_peer, which does not look at the status in the answer.
abbrev pub migrate_peer : List ℕ → Conn → ℤ × Conn
migrate_peer msgdata = request hdr_migration_begin (msgdata ∷ []) minus_one minus_one (λ res. pos 0)

-- The argument mode of _send_to_peer_internal; 3 and 4, INCR and DECR, are left out.
pub data SendMode : Type 0 where
  mode_set mode_add mode_cas : SendMode

abbrev pub hdr_of : SendMode → ℕ
hdr_of mode_set = hdr_set
hdr_of mode_add = hdr_add
hdr_of mode_cas = hdr_cas

-- A time goes into a record of its own, if it is not 0.
abbrev pub time_record : ℕ → List (List ℕ)
time_record ttl = if ttl == 0 then [] else be32 ttl ∷ []

abbrev pub third_record : SendMode → List ℕ → List (List ℕ)
third_record mode_cas value = value ∷ []
third_record mode value = []

-- The records of a command; `value2` only counts for CAS.
unfoldable pub send_records : SendMode → List ℕ → List ℕ → List ℕ → ℕ → ℕ → List (List ℕ)
send_records mode key value1 value2 ttl cttl =
    (key ∷ value1 ∷ third_record mode value2) ++ (time_record ttl ++ time_record cttl)

-- A char as an int
abbrev pub signed_byte : ℕ → ℤ
signed_byte b = if ltb b 128 then pos b else negsuc (255 - b)

abbrev pub set_rc : Option ℕ → ℤ
set_rc none = minus_one
set_rc (some b) = if b == res_exists then pos 1 else if b == res_ok then pos 0 else minus_one

-- What _send_to_peer_internal returns for an answer. An error message without a code in it is read
-- from a buffer that is not there: none.
unfoldable pub send_rc : Answer → Option ℤ
send_rc a =
    let known : Bool = elim a.hdr [ none ↦ false | some h ↦ h == hdr_response ] in
    let counted : Bool = elim a.num_records [ none ↦ false | some n ↦ n == 1 ] in
    if is_answer hdr_error 2 a
    then map signed_byte (first_byte_of a.resp)
    else if not known && counted
    then some minus_one
    else some (set_rc (first_byte_of a.resp))

-- _send_to_peer_internal
unfoldable pub send_to_peer_internal :
    SendMode → List ℕ → List ℕ → List ℕ → ℕ → ℕ → Bool → Conn → Option ℤ × Conn
send_to_peer_internal mode key value1 value2 ttl cttl expect_response c =
    let (wrote, c') =
      write_message (hdr_of mode) (send_records mode key value1 value2 ttl cttl) c in
    let a = read_answer false (some [] ∷ some [] ∷ []) c' in
    if not wrote
    then (some minus_one, c')
    else if expect_response
    then (send_rc a, record c' { sock = a.left })
    else (some (pos 0), c')

abbrev pub send_to_peer : List ℕ → List ℕ → ℕ → ℕ → Bool → Conn → Option ℤ × Conn
send_to_peer key value = send_to_peer_internal mode_set key value []

abbrev pub add_to_peer : List ℕ → List ℕ → ℕ → ℕ → Bool → Conn → Option ℤ × Conn
add_to_peer key value = send_to_peer_internal mode_add key value []

abbrev pub cas_on_peer : List ℕ → List ℕ → List ℕ → ℕ → ℕ → Bool → Conn → Option ℤ × Conn
cas_on_peer = send_to_peer_internal mode_cas

-- The buffer `out` after a call.
abbrev pub out_of : List (Option (List ℕ)) → List ℕ → List ℕ
out_of (some bs ∷ os) old = bs
out_of _ old = old

-- A request for data, with one buffer for it; the other records of the answer are thrown away.
unfoldable pub fetch_data :
    ℕ → List (List ℕ) → List (Option (List ℕ)) → List ℕ → Conn → ℤ × List ℕ × Conn
fetch_data hdr records others out c =
    let (wrote, c') = write_message hdr records c in
    let a = read_answer false (some out ∷ others) c' in
    if wrote
    then (
      if is_answer hdr_response (length others + 1) a then pos 0 else minus_one,
      out_of a.resp out,
      record c' { sock = a.left },
    )
    else (minus_one, out, c')

-- fetch_from_peer
abbrev pub fetch_from_peer : List ℕ → List ℕ → Conn → ℤ × List ℕ × Conn
fetch_from_peer key = fetch_data hdr_get (key ∷ []) (none ∷ [])

-- offset_from_peer
abbrev pub offset_from_peer : List ℕ → ℕ → ℕ → List ℕ → Conn → ℤ × List ℕ × Conn
offset_from_peer key offset dlen =
    fetch_data hdr_get_offset (key ∷ be32 offset ∷ be32 dlen ∷ []) (none ∷ none ∷ [])

-- stats_from_peer: the text that is allocated, with the 0 at its end.
unfoldable pub stats_from_peer : Conn → Option (List ℕ) × Conn
stats_from_peer c =
    let (wrote, c') = write_message hdr_stats [] c in
    let a = read_answer false (some [] ∷ []) c' in
    let text = out_of a.resp [] ++ (0 ∷ []) in
    if wrote
    then (if is_answer hdr_response 1 a then some text else none, record c' { sock = a.left })
    else (none, c')
