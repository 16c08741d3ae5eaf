-- ===== src/AsyncReader.antt =====
-- The parser of src/async_reader.c, which takes the bytes of a connection and gives the records in
-- them to a callback.
--
-- The ring buffer of the context is a library: here it is the list of the bytes in it. The context
-- has a callback, a parameter of the operations: whether it returns 0, by the calls before it. The
-- time of the last update is left out.
pub mod Loops
pub mod Rounds
pub mod Cuts
pub mod Records
mod Tests
use libgroupcache.Base.{
  ℕ, zero, suc, ◌+◌, ◌-◌, ◌*◌, ◌/◌, ◌%◌, ◌^◌, Bool, true, false, not, ◌&&◌, ◌||◌, List, [], ◌∷◌,
  ◌++◌, length, take, drop, ltb, leb, ◌==◌, if◌then◌else◌, ℤ, pos, negsuc, ◌≡◌,
}
use libgroupcache.Base.Words.{u16_mod, u32_mod, min_of}

-- async_read_context_state_t
pub data ReadState : Type 0 where
  reading_none reading_magic reading_hdr reading_record reading_rsep reading_done reading_err :
      ReadState

abbrev state_number : ReadState → ℕ
state_number reading_none = 0
state_number reading_magic = 1
state_number reading_hdr = 3
state_number reading_record = 4
state_number reading_rsep = 5
state_number reading_done = 6
state_number reading_err = 7

abbrev pub is_in : ReadState → ReadState → Bool
is_in s t = state_number s == state_number t

-- A call of the callback: the data, the index of the record (-1 at the end, -2 for an error), and
-- the length it is told.
pub record Call : Type 0 where
  pub payload : List ℕ
  pub index : ℤ
  pub total : ℕ

-- struct _async_read_ctx_s. `chunk` has the bytes of the chunk that are there, `coff` of them;
-- `magic` those of the magic number. The trace `calls` has the latest call first.
pub record Ctx : Type 0 where
  pub hdr : ℕ
  pub buf : List ℕ
  pub chunk : List ℕ
  pub clen : ℕ
  pub coff : ℕ
  pub rlen : ℕ
  pub rnum : ℕ
  pub state : ReadState
  pub magic : List ℕ
  pub version : ℕ
  pub calls : List Call

abbrev pub Callback : Type 0
Callback = List Call → Call → Bool

-- A callback that returns 0 to all but an error.
abbrev pub is_heard : ℤ → Bool
is_heard (pos i) = true
is_heard (negsuc zero) = true
is_heard (negsuc (suc n)) = false

abbrev pub Accepts : Callback → Type 0
Accepts cb = (cs : List Call) (c : Call) → is_heard c.index ≡ true → cb cs c ≡ true

-- SHARDCACHE_RSEP, SHC_HDR_NOOP, SHC_PROTOCOL_VERSION; the size of the array of a chunk.
abbrev pub record_separator : ℕ
record_separator = 128

abbrev pub noop : ℕ
noop = 144

abbrev pub protocol_version : ℕ
protocol_version = 2

abbrev pub chunk_size : ℕ
chunk_size = 65536

-- rbuf_read of `n` bytes, as far as there are some: what it reads, and the rest.
abbrev pub advance : ℕ → Ctx → Ctx
advance n a = record a { buf = drop n a.buf }

-- The callback is called.
abbrev pub call : List ℕ → ℤ → ℕ → Ctx → Ctx
call payload index total a = record a {
  calls = record { payload = payload; index = index; total = total } ∷ a.calls;
}

-- An error: the state, and the call that tells it.
unfoldable pub fail : ℕ → Ctx → Ctx
fail total a = call [] (negsuc 1) total (record a { state = reading_err })

-- The first byte of the buffer, which is not empty.
abbrev pub first : List ℕ → ℕ
first [] = 0
first (b ∷ bs) = b

-- The numbers at the start of a buffer that has their bytes.
abbrev pub word16 : List ℕ → ℕ
word16 (b ∷ d ∷ bs) = b * 256 + d
word16 _ = 0

abbrev pub word32 : List ℕ → ℕ
word32 (b ∷ d ∷ e ∷ f ∷ bs) = b * 2 ^ 24 + d * 2 ^ 16 + e * 2 ^ 8 + f
word32 _ = 0

-- async_read_move_to_next_record
unfoldable pub move_to_next_record : Callback → Ctx → Ctx × ℤ
move_to_next_record cb a =
    let bsep = first a.buf in
    let b = advance 1 a in
    let c = record b { state = reading_record } in
    let ended : Call = record { payload = []; index = pos a.rnum; total = a.rlen } in
    let told = call [] (pos a.rnum) a.rlen c in
    if length a.buf == 0
    then (record a { state = reading_rsep }, pos 1)
    else if bsep == record_separator
    then (if cb c.calls ended
        then (record told { rnum = a.rnum + 1; rlen = 0 }, pos 0)
        else (fail a.rlen told, negsuc 0))
    else if bsep == 0
    then (record b { state = reading_done }, pos 1)
    else (fail a.rlen b, negsuc 0)

-- Whether a result makes the loops stop.
abbrev pub stops : ℤ → Bool
stops (pos zero) = false
stops _ = true

-- A round of a loop: it goes on, it breaks, or it writes outside the array of the chunk, which C
-- does not define.
pub data Round : Type 0 where
  again : Ctx → Round
  leave : Ctx → Round
  overrun : Round

-- The second part of a round of async_read_parse_protocol_v1.
unfoldable pub v1_chunk : Callback → Ctx → Round
v1_chunk cb a =
    let rb = min_of (a.clen - a.coff) (length a.buf) in
    let b =
      advance rb (record a {
        chunk = take a.coff a.chunk ++ take rb a.buf;
        coff = (a.coff + rb) % u16_mod;
      }) in
    let (c, rc) = move_to_next_record cb a in
    if ltb a.coff a.clen
    then (if length b.buf == 0 then leave b else again b)
    else if stops rc
    then leave c
    else again c

-- The first part: the chunk that is complete, and the length of the next.
unfoldable pub v1_next : Ctx → Ctx
v1_next a =
    let nlen = word16 a.buf in
    advance 2 (record a { clen = nlen; rlen = (a.rlen + nlen) % u32_mod; coff = 0 })

-- A round of async_read_parse_protocol_v1
unfoldable pub v1_round : Callback → Ctx → Round
v1_round cb a =
    let chunk : Call = record {
      payload = take a.clen a.chunk;
      index = pos a.rnum;
      total = a.clen;
    } in
    let told = call (take a.clen a.chunk) (pos a.rnum) a.clen a in
    if (a.coff == a.clen) && is_in a.state reading_record
    then if ltb (length a.buf) 2
      then leave a
      else if a.clen == 0
      then v1_chunk cb (v1_next a)
      else if cb a.calls chunk
      then v1_chunk cb (v1_next told)
      else leave (fail a.clen told)
    else v1_chunk cb a

-- The bytes of the record that are there, in a round of async_read_parse_protocol_v2.
unfoldable pub v2_chunk : Callback → Ctx → Round
v2_chunk cb a =
    let rb = min_of (a.rlen - a.coff) (length a.buf) in
    let b = advance rb a in
    let part : Call = record { payload = take rb a.buf; index = pos a.rnum; total = a.rlen } in
    let told = call (take rb a.buf) (pos a.rnum) a.rlen b in
    let moved = record told { coff = (a.coff + rb) % u16_mod } in
    if ltb a.coff a.rlen
    then if ltb chunk_size (a.coff + rb)
      then overrun
      else if not (cb a.calls part)
      then leave (fail a.rlen told)
      else if length moved.buf == 0
      then leave moved
      else again moved
    else again a

-- The length of the next record; a record without bytes is passed over.
unfoldable pub v2_next : Callback → Ctx → Round
v2_next cb a =
    let n = word32 a.buf in
    let b = advance 4 a in
    let (c, rc) = move_to_next_record cb b in
    if ltb (length a.buf) 4
    then leave a
    else if n == 0
    then (if stops rc
        then leave c
        else v2_chunk cb (record c { rlen = n; clen = n % u16_mod; coff = 0 }))
    else v2_chunk cb (record b { rlen = n; clen = n % u16_mod; coff = 0 })

-- A round of async_read_parse_protocol_v2
unfoldable pub v2_round : Callback → Ctx → Round
v2_round cb a =
    let (c, rc) = move_to_next_record cb a in
    if (a.coff == a.rlen) && is_in a.state reading_record
    then if ltb 0 a.rlen then (if stops rc then leave c else v2_next cb c) else v2_next cb a
    else v2_chunk cb a

-- The end of a loop: what it leaves, a write outside the chunk, or none within the rounds given.
pub data Ran : Type 0 where
  ended : Ctx → Ran
  faulted : Ran
  running : Ctx → Ran

unfoldable pub loop : (Ctx → Round) → ℕ → Ctx → Ran
loop round zero a = running a
loop round (suc fuel) a = elim (round a) [
  | again b ↦ loop round fuel b
  | leave b ↦ ended b
  | overrun ↦ faulted
]

-- The rounds that a buffer is given.
abbrev pub rounds : Ctx → ℕ
rounds a = length a.buf + 1

-- The version is a signed char, so a byte from 128 on counts as negative.
abbrev pub is_v1 : ℕ → Bool
is_v1 version = ltb version 2 || leb 128 version

-- async_read_parse_protocol_v1, async_read_parse_protocol_v2
unfoldable pub parse_protocol : Callback → Ctx → Ran
parse_protocol cb a =
    if is_v1 a.version then loop (v1_round cb) (rounds a) a else loop (v2_round cb) (rounds a) a

-- After a message the context is as new.
unfoldable pub reset : Ctx → Ctx
reset a =
    if is_in a.state reading_done
    then record a {
      state = reading_none;
      rnum = 0;
      rlen = 0;
      version = 0;
      clen = 0;
      coff = 0;
      magic = [];
    }
    else a

-- Bytes that only keep the connection alive.
unfoldable pub skip_noops : List ℕ → List ℕ
skip_noops [] = []
skip_noops (b ∷ bs) = if b == noop then skip_noops bs else b ∷ bs

unfoldable pub read_first : Ctx → Ctx
read_first a =
    let bs = skip_noops a.buf in
    if not (is_in a.state reading_none)
    then a
    else if length bs == 0
    then record a { hdr = 0; buf = [] }
    else record a { hdr = 0; buf = drop 1 bs; magic = take 1 bs; state = reading_magic }

-- The three bytes that SHC_MAGIC has before the version.
abbrev pub has_magic : List ℕ → Bool
has_magic (a ∷ b ∷ c ∷ v ∷ []) = (a == 115) && ((b == 104) && (c == 99))
has_magic _ = false

abbrev pub version_in : List ℕ → ℕ
version_in (a ∷ b ∷ c ∷ v ∷ []) = v
version_in _ = 0

unfoldable pub read_magic : Ctx → Ctx
read_magic a =
    let need = 4 - length a.magic in
    let magic = a.magic ++ take need a.buf in
    let b = advance need (record a { magic = magic }) in
    let c = record b { version = version_in magic } in
    if not (is_in a.state reading_magic)
    then a
    else if ltb (length a.buf) need
    then a
    else if not (has_magic magic)
    then fail a.clen b
    else if ltb protocol_version c.version && ltb c.version 128
    then fail a.clen c
    else record c { state = reading_hdr }

unfoldable pub read_hdr : Ctx → Ctx
read_hdr a =
    if not (is_in a.state reading_hdr)
    then a
    else if length a.buf == 0
    then a
    else advance 1 (record a { hdr = first a.buf; state = reading_record })

-- The end of a message is told.
unfoldable pub tell_done : Callback → Ctx → Ctx
tell_done cb a =
    let last : Call = record { payload = []; index = negsuc 0; total = a.clen } in
    let told = call [] (negsuc 0) a.clen a in
    if not (is_in a.state reading_done)
    then a
    else if cb a.calls last
    then told
    else fail a.clen told

abbrev pub then_tell : Callback → Ran → Ran
then_tell cb (ended a) = ended (tell_done cb a)
then_tell cb faulted = faulted
then_tell cb (running a) = running a

-- async_read_context_update
unfoldable pub update_ctx : Callback → Ctx → Ran
update_ctx cb a =
    let b = reset a in
    let c = read_hdr (read_magic (read_first b)) in
    let parsed = if is_in c.state reading_record then parse_protocol cb c else ended c in
    if length b.buf == 0 then ended b else then_tell cb parsed

-- async_read_context_input_data: the buffer takes what it has room for.
unfoldable pub input_data : Callback → List ℕ → Ctx → Ran
input_data cb bytes a =
    let taken = take (chunk_size - length a.buf) bytes in
    if length taken == 0 then ended a else update_ctx cb (record a { buf = a.buf ++ taken })

-- async_read_context_create
abbrev pub new_ctx : Ctx
new_ctx = record {
  hdr = 0;
  buf = [];
  chunk = [];
  clen = 0;
  coff = 0;
  rlen = 0;
  rnum = 0;
  state = reading_none;
  magic = [];
  version = 0;
  calls = [];
}
