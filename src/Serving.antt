-- ===== src/Serving.antt =====
-- The answers that src/serving.c writes for a client: the status of a command, and the value of a get
-- that comes in pieces.
--
-- A request is the one of a client that is still connected; its output is what stands in req->output
-- since it came. `skipped` is never changed and left out; `copied` does not wrap.
pub mod Decode
pub mod Status
pub mod Get
pub mod Order
mod Tests
use libgroupcache.Base.{
  ℕ, zero, suc, ◌+◌, ◌-◌, ◌%◌, Bool, true, false, not, ◌&&◌, ◌||◌, List, [], ◌∷◌, ◌++◌, length,
  get_or, take, drop, ltb, leb, ◌==◌, if◌then◌else◌, ℤ, pos, minus_one,
}
use libgroupcache.Base.Words.{u16_mod, u32_mod, sub64}
use libgroupcache.Base.Bytes.{be16, be32}
use libgroupcache.AsyncReader.{record_separator, is_v1, word32}
use libgroupcache.Messaging.{
  hdr_get, hdr_get_async, hdr_get_offset, hdr_response, res_ok, res_err, chunk_max, StatusMode,
  rc_to_status,
}

-- shardcache_request_t. `done` and `error` are counters.
pub record Request : Type 0 where
  pub hdr : ℕ
  pub version : ℕ
  pub records : List (List ℕ)
  pub output : List ℕ
  pub accumulator : List ℕ
  pub copied : ℕ
  pub done : ℕ
  pub error : ℕ

-- send_data
abbrev pub send_data : List ℕ → Request → Request
send_data bytes r = record r { output = r.output ++ bytes }

-- The magic number in the version of the client, and the header of a response.
abbrev pub response_start : ℕ → List ℕ
response_start version = 115 ∷ 104 ∷ 99 ∷ version ∷ hdr_response ∷ []

abbrev pub is_get : ℕ → Bool
is_get hdr = (hdr == hdr_get) || ((hdr == hdr_get_async) || (hdr == hdr_get_offset))

-- The array `out` of write_status.
unfoldable pub status_array : Bool → Bool → ℕ → List ℕ
status_array true true status = 0 ∷ 0 ∷ 0 ∷ 0 ∷ 0 ∷ 0 ∷ []
status_array true false status = 0 ∷ 0 ∷ 0 ∷ 0 ∷ 0 ∷ 0 ∷ []
status_array false true status = 0 ∷ 1 ∷ status ∷ 0 ∷ 0 ∷ 0 ∷ []
status_array false false status = 0 ∷ 0 ∷ 0 ∷ 1 ∷ status ∷ 0 ∷ []

-- How much of it is left out; the version is a signed char.
unfoldable pub status_delta : Bool → ℕ → ℕ
status_delta false version = 0
status_delta true version = if (version == 0) || leb 128 version then 3 else 1

-- What write_status writes.
unfoldable pub status_bytes : ℕ → ℕ → StatusMode → ℤ → List ℕ
status_bytes hdr version mode rc =
    let no_data = is_get hdr in
    response_start version
    ++ take (6 - status_delta no_data version)
        (status_array no_data (is_v1 version) (rc_to_status rc mode))

-- write_status
unfoldable pub write_status : StatusMode → ℤ → Request → Request
write_status mode rc r = record (send_data (status_bytes r.hdr r.version mode rc) r) {
  done = r.done + 1;
}

-- send_async_data_response_preamble
unfoldable pub preamble : ℕ → Request → Request
preamble total_size r =
    send_data (response_start r.version ++ (if is_v1 r.version then [] else be32 total_size)) r

-- send_async_data_response_epilogue
unfoldable pub epilogue_bytes : ℕ → ℕ → List ℕ
epilogue_bytes version status =
    let rsep = if version == 1 then 0 else record_separator in
    (if is_v1 version then be16 0 else [])
    ++ (rsep ∷ (if is_v1 version then [] else be32 1 ++ (status ∷ 0 ∷ [])))

unfoldable pub epilogue : ℕ → Request → Request
epilogue status r = record (send_data (epilogue_bytes r.version status) r) { done = r.done + 1 }

-- A call of get_async_data_handler: the data, the total size, and whether there is a timestamp.
pub record Piece : Type 0 where
  pub content : List ℕ
  pub total : ℕ
  pub stamped : Bool

-- The loop of version 1, for the rounds given: whole chunks, from what was kept and the data. What
-- is written, what is kept, and the data that is left.
unfoldable pub whole_chunks : ℕ → List ℕ → List ℕ → List ℕ × List ℕ × List ℕ
whole_chunks zero kept bytes = ([], kept, bytes)
whole_chunks (suc rounds) kept bytes =
    let copy_size = chunk_max - length kept in
    let (written, kept', bytes') = whole_chunks rounds [] (drop copy_size bytes) in
    if ltb (length kept + length bytes) chunk_max
    then ([], kept, bytes)
    else (be16 chunk_max ++ (kept ++ (take copy_size bytes ++ written)), kept', bytes')

-- The data goes out: in version 1 in chunks, with accumulated_size for what is kept.
unfoldable pub v1_data : List ℕ → Request → Request × ℕ
v1_data bytes r =
    let (written, kept, rest) = whole_chunks (length bytes + 1) r.accumulator bytes in
    (
      record (send_data written r) { accumulator = kept ++ rest; copied = r.copied + length bytes },
      if length rest == 0 then length kept % u16_mod else length rest % u16_mod,
    )

unfoldable pub v2_data : List ℕ → Request → Request × ℕ
v2_data bytes r = (record (send_data bytes r) { copied = r.copied + length bytes }, 0)

-- What was accumulated is flushed, with the size given for it.
unfoldable pub flush : ℕ → Request → Request
flush accumulated_size r =
    if accumulated_size == 0
    then r
    else record (send_data (be16 accumulated_size ++ r.accumulator) r) { accumulator = [] }

-- The record of a get of a part that says how many bytes are left.
unfoldable pub offset_record : ℕ → Request → Request
offset_record total_size r =
    if r.hdr == hdr_get_offset
    then send_data (record_separator ∷ (be32 4 ++ be32 (sub64 total_size r.copied))) r
    else r

-- The end of the value, if it has a timestamp.
unfoldable pub finish_value : Piece → Request × ℕ → Request
finish_value p (r, accumulated_size) =
    let e = epilogue res_ok (offset_record p.total (flush accumulated_size r)) in
    if ltb 0 p.total && p.stamped then record e { done = e.done + 1 } else r

-- The size in the preamble
unfoldable pub record_size : ℕ → Request → ℕ
record_size total_size r =
    if r.hdr == hdr_get_offset then word32 (get_or r.records 2 []) else total_size % u32_mod

unfoldable pub begin_value : ℕ → Request → Request
begin_value total_size r = if r.copied == 0 then preamble (record_size total_size r) r else r

-- get_async_data_handler
unfoldable pub get_async_data_handler : Piece → Request → Request × ℤ
get_async_data_handler p r =
    let b = begin_value p.total r in
    let status = if not p.stamped && not (r.copied == 0) then res_err else res_ok in
    let sent = if is_v1 r.version then v1_data p.content b else v2_data p.content b in
    if (length p.content == 0) && (p.total == 0)
    then (epilogue status b, if p.stamped then pos 0 else minus_one)
    else (finish_value p sent, pos 0)

-- The handler is called for one piece after the other.
unfoldable pub handle_all : List Piece → Request → Request
handle_all [] r = r
handle_all (p ∷ ps) r = handle_all ps (get_async_data_handler p r).0

-- get_async_data, when shardcache_get returns an error: the calls of the handler before it are in `r`.
unfoldable pub answer_error : Request → Request
answer_error r = epilogue res_err (preamble 0 r)
