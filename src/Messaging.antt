-- ===== src/Messaging.antt =====
-- The messages of src/messaging.c: how one is built for the wire, the status byte of an answer, and a
-- list of items in a record.
--
-- A record is the list of its bytes; a NULL one has none. The buffers of libhl only grow at their
-- end, so what is added to one is a list to append.
pub mod Socket
pub mod Read
pub mod Update
pub mod Peers
pub mod Array
mod Tests
use libgroupcache.Base.{
  ℕ, zero, suc, ◌+◌, ◌-◌, ◌^◌, Bool, true, false, ◌&&◌, ◌||◌, List, [], ◌∷◌, ◌++◌, length, take,
  drop, ltb, leb, ◌==◌, if◌then◌else◌, ℤ, pos, minus_one,
}
use libgroupcache.Base.Words.{min_of}
use libgroupcache.Base.Bytes.{be16, be32}
use libgroupcache.AsyncReader.{record_separator, is_v1}

abbrev between : ℕ → ℕ → ℕ → Bool
between low high h = leb low h && leb h high

-- hdr_check
unfoldable pub hdr_check : ℕ → Bool
hdr_check h =
    between 1 14 h
    || (between 16 17 h
        || (between 33 35 h
            || (between 49 50 h
                || (between 65 66 h || ((h == 144) || (between 152 153 h || between 160 163 h))))))

-- UINT16_MAX
abbrev pub chunk_max : ℕ
chunk_max = 65535

-- The loop of _chunkize_buffer, for the rounds given: chunks with their lengths before them, and a
-- length of 0 behind the last.
unfoldable pub chunkize : ℕ → List ℕ → List ℕ
chunkize zero bytes = []
chunkize (suc rounds) bytes =
    let writelen = min_of chunk_max (length bytes) in
    let bytes' = drop writelen bytes in
    let behind = chunkize rounds bytes' in
    be16 writelen ++ (take writelen bytes ++ (if length bytes' == 0 then be16 0 else behind))

-- _chunkize_buffer
abbrev pub chunkize_buffer : List ℕ → List ℕ
chunkize_buffer bytes = chunkize (length bytes + 1) bytes

-- A record, as the loop of build_message writes it.
unfoldable pub record_bytes : ℕ → List ℕ → List ℕ
record_bytes version r =
    if length r == 0
    then (if is_v1 version then be16 0 else [])
    else if is_v1 version
    then chunkize_buffer r
    else be32 (length r) ++ r

-- The records after the first, each behind a separator.
unfoldable pub more_records : ℕ → List (List ℕ) → List ℕ
more_records version [] = []
more_records version (r ∷ rs) =
    record_separator ∷ (record_bytes version r ++ more_records version rs)

unfoldable pub records_bytes : ℕ → List (List ℕ) → List ℕ
records_bytes version [] = if is_v1 version then be16 0 else be32 0
records_bytes version (r ∷ rs) = record_bytes version r ++ more_records version rs

-- SHC_MAGIC, in network byte order: the version is in it.
abbrev pub magic_bytes : List ℕ
magic_bytes = 115 ∷ 104 ∷ 99 ∷ 2 ∷ []

-- build_message, which never fails.
unfoldable pub build_message : ℕ → List (List ℕ) → ℕ → List ℕ
build_message hdr records version =
    magic_bytes ++ (hdr ∷ (records_bytes version records ++ (0 ∷ [])))

-- The headers and the status bytes that the functions below name (SHC_HDR_..., SHC_RES_...).
abbrev pub hdr_get : ℕ
hdr_get = 1

abbrev pub hdr_set : ℕ
hdr_set = 2

abbrev pub hdr_delete : ℕ
hdr_delete = 3

abbrev pub hdr_evict : ℕ
hdr_evict = 4

abbrev pub hdr_get_async : ℕ
hdr_get_async = 5

abbrev pub hdr_get_offset : ℕ
hdr_get_offset = 6

abbrev pub hdr_add : ℕ
hdr_add = 7

abbrev pub hdr_exists : ℕ
hdr_exists = 8

abbrev pub hdr_touch : ℕ
hdr_touch = 9

abbrev pub hdr_cas : ℕ
hdr_cas = 10

abbrev pub hdr_increment : ℕ
hdr_increment = 16

abbrev pub hdr_decrement : ℕ
hdr_decrement = 17

abbrev pub hdr_migration_abort : ℕ
hdr_migration_abort = 33

abbrev pub hdr_migration_begin : ℕ
hdr_migration_begin = 34

abbrev pub hdr_check_peer : ℕ
hdr_check_peer = 49

abbrev pub hdr_stats : ℕ
hdr_stats = 50

abbrev pub hdr_get_index : ℕ
hdr_get_index = 65

abbrev pub hdr_index_response : ℕ
hdr_index_response = 66

abbrev pub hdr_error : ℕ
hdr_error = 152

abbrev pub hdr_response : ℕ
hdr_response = 153

abbrev pub res_ok : ℕ
res_ok = 0

abbrev pub res_yes : ℕ
res_yes = 1

abbrev pub res_exists : ℕ
res_exists = 2

abbrev pub res_no : ℕ
res_no = 254

abbrev pub res_err : ℕ
res_err = 255

-- rc_to_status_mode_t
pub data StatusMode : Type 0 where
  simple_mode boolean_mode exists_mode numeric_mode : StatusMode

-- rc_to_status
unfoldable pub rc_to_status : ℤ → StatusMode → ℕ
rc_to_status (pos zero) boolean_mode = res_no
rc_to_status (pos zero) simple_mode = res_ok
rc_to_status (pos zero) exists_mode = res_ok
rc_to_status (pos zero) numeric_mode = res_ok
rc_to_status (pos (suc zero)) boolean_mode = res_yes
rc_to_status (pos (suc zero)) exists_mode = res_exists
rc_to_status _ mode = res_err
