-- ===== src/Serving/Decode.antt =====
-- How src/serving.c takes a request from the asynchronous reader, and what process_request makes of the
-- records of a command.
pub mod Commands
use libgroupcache.Base.{
  ℕ, zero, suc, ◌+◌, ◌*◌, ◌^◌, Bool, true, false, Option, none, some, List, [], ◌∷◌, ◌++◌, length,
  get_or, leb, ◌==◌, if◌then◌else◌, ℤ, pos, negsuc,
}
use libgroupcache.AsyncReader.{Call, Callback, is_heard}
use libgroupcache.Serving.{Request}

-- ctx->records: SHARDCACHE_REQUEST_RECORDS_MAX buffers.
abbrev pub no_records : List (List ℕ)
no_records = [] ∷ [] ∷ [] ∷ [] ∷ [] ∷ []

-- fbuf_add_binary on one of them; there is none beyond the last.
unfoldable pub add_at : ℕ → List ℕ → List (List ℕ) → List (List ℕ)
add_at i bytes [] = []
add_at zero bytes (x ∷ xs) = (x ++ bytes) ∷ xs
add_at (suc i) bytes (x ∷ xs) = x ∷ add_at i bytes xs

-- async_read_handler: the records after a call, and whether it returns 0.
unfoldable pub read_handler : ℤ → List ℕ → List (List ℕ) → List (List ℕ)
read_handler (pos i) bytes records = add_at i bytes records
read_handler (negsuc n) bytes records = records

abbrev pub handler_answers : Callback
handler_answers calls c = is_heard c.index

-- The records after some calls, the latest first.
unfoldable pub records_after : List Call → List (List ℕ)
records_after [] = no_records
records_after (c ∷ calls) = read_handler c.index c.payload (records_after calls)

-- shardcache_request_create
unfoldable pub new_request : ℕ → ℕ → List (List ℕ) → Request
new_request hdr version records = record {
  hdr = hdr;
  version = version;
  records = records;
  output = [];
  accumulator = [];
  copied = 0;
  done = 0;
  error = 0;
}

-- ntohl of the first four bytes of a record; none is a read past its end.
unfoldable pub read_word : List ℕ → Option ℕ
read_word (b ∷ d ∷ e ∷ f ∷ bs) = some (b * 2 ^ 24 + d * 2 ^ 16 + e * 2 ^ 8 + f)
read_word _ = none

-- A time, of the record `source`, if the record `test` has four bytes.
unfoldable pub time_from : ℕ → ℕ → List (List ℕ) → Option ℕ
time_from source test records =
    if length (get_or records test []) == 4 then read_word (get_or records source []) else some 0

-- What process_request gives to shardcache_set.
pub record SetArgs : Type 0 where
  pub key : List ℕ
  pub value : List ℕ
  pub expire : Option ℕ
  pub cexpire : Option ℕ

-- The case of SHC_HDR_SET and SHC_HDR_ADD.
unfoldable pub set_args : List (List ℕ) → SetArgs
set_args records = record {
  key = get_or records 0 [];
  value = get_or records 1 [];
  expire = time_from 2 2 records;
  cexpire = time_from 2 3 records;
}

-- What process_request gives to shardcache_cas.
pub record CasArgs : Type 0 where
  pub key : List ℕ
  pub old_value : List ℕ
  pub new_value : List ℕ
  pub expire : Option ℕ
  pub cexpire : Option ℕ

-- The case of SHC_HDR_CAS, for a request that has a new value.
unfoldable pub cas_args : List (List ℕ) → CasArgs
cas_args records = record {
  key = get_or records 0 [];
  old_value = get_or records 1 [];
  new_value = get_or records 2 [];
  expire = time_from 2 3 records;
  cexpire = time_from 2 4 records;
}
