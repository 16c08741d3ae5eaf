-- ===== src/AsyncReader/Records.antt =====
-- Whole messages of version 2, as src/async_reader.c gives them to its callback.
use libgroupcache.Base.{
  ℕ, zero, suc, ◌+◌, ◌^◌, ◌<◌, ◌≤◌, ◌≡◌, refl, ◌∙◌, true, false, List, [], ◌∷◌, ◌++◌, length,
  length-append, All, arith, ltb, ◌==◌, pos,
}
use libgroupcache.Base.Bytes.{be32}
use libgroupcache.AsyncReader.{
  Ctx, Callback, Accepts, Call, reading_done, record_separator, move_to_next_record, Round, again,
  leave, v2_next, v2_round, ended, loop, rounds, parse_protocol,
}
use libgroupcache.AsyncReader.Rounds.{
  waiting, part_call, behind, first_round, whole_chunk, word32-be32,
}

-- The format: each record with its length before it, a separator between two, and 0 at the end.
unfoldable pub format_tail : List (List ℕ) → List ℕ
format_tail [] = 0 ∷ []
format_tail (y ∷ ys) = record_separator ∷ (be32 (length y) ++ (y ++ format_tail ys))

abbrev pub format : List ℕ → List (List ℕ) → List ℕ
format x ys = be32 (length x) ++ (x ++ format_tail ys)

-- The calls for the records of a message, the latest first: the bytes of each, and its end.
abbrev pub end_call : ℕ → List ℕ → Call
end_call rnum x = record { payload = []; index = pos rnum; total = length x }

unfoldable pub calls_for : List Call → ℕ → List ℕ → List (List ℕ) → List Call
calls_for calls rnum x [] = part_call rnum x ∷ calls
calls_for calls rnum x (y ∷ ys) =
    calls_for (end_call rnum x ∷ part_call rnum x ∷ calls) (rnum + 1) y ys

abbrev pub IsRecord : List ℕ → Type 0
IsRecord x = (1 ≤ length x) × (length x < 2 ^ 16)

format_tail-length : (ys : List (List ℕ)) → length ys + 1 ≤ length (format_tail ys)
unfolding format_tail be32
format_tail-length [] = omega arith
format_tail-length (y ∷ ys) = omega (arith, format_tail-length ys, length-append y (format_tail ys))

next_round :
    (cb : Callback) (base : Ctx) (calls : List Call) (rnum : ℕ) (xs ys rest : List ℕ)
    → Accepts cb
    → IsRecord xs
    → IsRecord ys
    → 1 ≤ length rest
    → v2_round cb
        (behind base calls rnum xs (record_separator ∷ (be32 (length ys) ++ (ys ++ rest))))
      ≡ again (behind base (end_call rnum xs ∷ part_call rnum xs ∷ calls) (rnum + 1) ys rest)
unfolding v2_round v2_next move_to_next_record be32
next_round cb base calls rnum xs ys rest accepts (one, fits) (one', fits') left =
    let same : (length xs == length xs) ≡ true = ground arith in
    let some_read : ltb 0 (length xs) ≡ true = ground arith in
    let bytes = be32 (length ys) ++ (ys ++ rest) in
    let more : (length (record_separator ∷ bytes) == 0) ≡ false = ground arith in
    let enough : ltb (length bytes) 4 ≡ false = ground arith in
    let word = word32-be32 (length ys) (ys ++ rest) (omega arith) in
    let full : (length ys == 0) ≡ false = ground arith in
    let heard = accepts (part_call rnum xs ∷ calls) (end_call rnum xs) refl in
    rw (same, some_read, more)
      (rw heard (
        rw (enough, word)
          (rw full (
            whole_chunk cb base (end_call rnum xs ∷ part_call rnum xs ∷ calls) (rnum + 1) ys rest
              accepts one' left fits'))))

last_round :
    (cb : Callback) (base : Ctx) (calls : List Call) (rnum : ℕ) (xs : List ℕ)
    → 1 ≤ length xs
    → v2_round cb (behind base calls rnum xs (0 ∷ []))
      ≡ leave (record (behind base calls rnum xs []) { state = reading_done })
unfolding v2_round move_to_next_record
last_round cb base calls rnum xs one =
    let same : (length xs == length xs) ≡ true = ground arith in
    let some_read : ltb 0 (length xs) ≡ true = ground arith in rw (same, some_read) refl

-- The rest of a message, from behind a record.
loop-format_tail :
    (cb : Callback) (base : Ctx) (calls : List Call) (rnum : ℕ) (x : List ℕ) (ys : List (List ℕ))
    (fuel : ℕ)
    → Accepts cb
    → IsRecord x
    → All IsRecord ys
    → length ys + 1 ≤ fuel
    → (b : Ctx) × (loop (v2_round cb) fuel (behind base calls rnum x (format_tail ys)) ≡ ended b)
      × (b.state ≡ reading_done)
      × (b.buf ≡ [])
      × (b.hdr ≡ base.hdr)
      × (b.calls ≡ calls_for calls rnum x ys)
unfolding loop format_tail calls_for
loop-format_tail cb base calls rnum x [] zero accepts i is le = absurd (omega arith)
loop-format_tail cb base calls rnum x (y ∷ ys) zero accepts i is le = absurd (omega arith)
loop-format_tail cb base calls rnum x [] (suc fuel) accepts i is le = (
  record (behind base calls rnum x []) { state = reading_done },
  rw (last_round cb base calls rnum x i.0, loop) refl,
  refl,
  refl,
  refl,
  refl,
)
loop-format_tail cb base calls rnum x (y ∷ ys) (suc fuel) accepts i is le =
    let (b, e, s, u, h, cs) =
      loop-format_tail cb base (end_call rnum x ∷ part_call rnum x ∷ calls) (rnum + 1) y ys fuel
        accepts is.0 is.1 (omega arith) in
    (
      b,
      rw
          (
            next_round cb base calls rnum x y (format_tail ys) accepts i is.0
                (omega (arith, format_tail-length ys)),
            loop,
          )
          e,
      s,
      u,
      h,
      cs,
    )

loop-again :
    (round : Ctx → Round) (a b : Ctx) (m n : ℕ)
    → m ≡ suc n
    → round a ≡ again b
    → loop round m a ≡ loop round n b
unfolding loop
loop-again round a b m n e f = rw e (rw (f, loop) refl)

-- async_read_parse_protocol_v2, for a callback that returns 0 but for an error, in a context that waits for a record and
-- has a whole message of records of 1 to 65535 bytes in its buffer: the loop ends, the message is
-- done with its header kept, the buffer is empty, and the callback got every record with its index, in order.
pub parse_protocol-format :
    (cb : Callback) (base : Ctx) (calls : List Call) (rnum : ℕ) (x : List ℕ) (ys : List (List ℕ))
    → Accepts cb
    → IsRecord x
    → All IsRecord ys
    → (b : Ctx) × (parse_protocol cb (waiting base calls rnum (format x ys)) ≡ ended b)
      × (b.state ≡ reading_done)
      × (b.buf ≡ [])
      × (b.hdr ≡ base.hdr)
      × (b.calls ≡ calls_for calls rnum x ys)
unfolding parse_protocol be32
parse_protocol-format cb base calls rnum x ys accepts i is =
    let left = format_tail-length ys in
    let a = waiting base calls rnum (format x ys) in
    let (b, e, s, u, h, cs) =
      loop-format_tail cb base calls rnum x ys (length (format x ys)) accepts i is
        (omega (arith, left, length-append x (format_tail ys))) in
    let first =
      first_round cb base calls rnum x (format_tail ys) accepts i.0 (omega (arith, left)) i.1 in
    (
      b,
      loop-again (v2_round cb) a _ (rounds a) (length (format x ys)) (omega arith) first ∙ e,
      s,
      u,
      h,
      cs,
    )
