-- ===== src/AsyncReader/Rounds.antt =====
-- The rounds of the version 2 loop of src/async_reader.c on a record that is in the buffer as a whole.
use libgroupcache.Base.{
  ℕ, ◌+◌, ◌-◌, ◌%◌, ◌^◌, ◌<◌, ◌≤◌, ◌≡◌, refl, true, false, List, ◌∷◌, ◌++◌, length, length-append,
  take-append_length, drop-append_length, arith, ltb, ◌==◌, pos,
}
use libgroupcache.Base.Words.{u16_mod, min_of}
use libgroupcache.Base.Bytes.{be32}
use libgroupcache.AsyncReader.{
  Ctx, Callback, Accepts, Call, reading_record, chunk_size, word32, again, v2_chunk, v2_next,
  v2_round,
}

-- A context of version 2, with the header of another, that waits for the record `rnum`, with bytes in its buffer.
abbrev pub waiting : Ctx → List Call → ℕ → List ℕ → Ctx
waiting base calls rnum buf = record base {
  rlen = 0;
  clen = 0;
  coff = 0;
  state = reading_record;
  version = 2;
  calls = calls;
  rnum = rnum;
  buf = buf;
}

abbrev pub part_call : ℕ → List ℕ → Call
part_call rnum xs = record { payload = xs; index = pos rnum; total = length xs }

-- Behind a record whose separator is still to come.
abbrev pub behind : Ctx → List Call → ℕ → List ℕ → List ℕ → Ctx
behind base calls rnum xs rest = record (waiting base (part_call rnum xs ∷ calls) rnum rest) {
  rlen = length xs;
  clen = length xs % u16_mod;
  coff = length xs;
}

pub word32-be32 : (n : ℕ) (rest : List ℕ) → n < 2 ^ 32 → word32 (be32 n ++ rest) ≡ n
unfolding be32
word32-be32 n rest h = omega arith

-- The bytes of the record are given to the callback at once.
pub whole_chunk :
    (cb : Callback) (base : Ctx) (calls : List Call) (rnum : ℕ) (xs rest : List ℕ)
    → Accepts cb
    → 1 ≤ length xs
    → 1 ≤ length rest
    → length xs < 2 ^ 16
    → v2_chunk cb (record (waiting base calls rnum (xs ++ rest)) {
      rlen = length xs;
      clen = length xs % u16_mod;
    })
      ≡ again (behind base calls rnum xs (rest))
unfolding v2_chunk
whole_chunk cb base calls rnum xs rest accepts one left fits =
    let all : min_of (length xs - 0) (length (xs ++ rest)) ≡ length xs =
      ground (arith, length-append xs (rest)) in
    let some_left : ltb 0 (length xs) ≡ true = ground arith in
    let room : ltb chunk_size (0 + length xs) ≡ false = ground arith in
    let no_wrap : (0 + length xs) % u16_mod ≡ length xs = omega arith in
    let more : (length (rest) == 0) ≡ false = ground arith in
    rw (some_left, all, room, take-append_length xs (rest), drop-append_length xs (rest), no_wrap)
      (rw (accepts calls (part_call rnum xs) refl) (rw more refl))

pub first_round :
    (cb : Callback) (base : Ctx) (calls : List Call) (rnum : ℕ) (xs rest : List ℕ)
    → Accepts cb
    → 1 ≤ length xs
    → 1 ≤ length rest
    → length xs < 2 ^ 16
    → v2_round cb (waiting base calls rnum (be32 (length xs) ++ (xs ++ rest)))
      ≡ again (behind base calls rnum xs (rest))
unfolding v2_round v2_next v2_chunk be32
first_round cb base calls rnum xs rest accepts one left fits =
    let word = word32-be32 (length xs) (xs ++ rest) (omega arith) in
    let full : (length xs == 0) ≡ false = ground arith in
    let enough : ltb (length (be32 (length xs) ++ (xs ++ rest))) 4 ≡ false = ground arith in
    rw (enough, word) (rw full (whole_chunk cb base calls rnum xs rest accepts one left fits))
