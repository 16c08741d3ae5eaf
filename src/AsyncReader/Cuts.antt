-- ===== src/AsyncReader/Cuts.antt =====
-- Messages that src/async_reader.c gets in pieces, cut where it does not go on.
use libgroupcache.Base.{
  ℕ, zero, suc, ◌+◌, ◌-◌, ◌%◌, ◌^◌, ◌<◌, ◌≤◌, ◌≡◌, refl, true, false, Bool-cases, inl, inr, List,
  [], ◌∷◌, ◌++◌, length, append-nil, take, arith, ltb, ◌==◌, pos,
}
use libgroupcache.Base.Words.{u16_mod}
use libgroupcache.Base.Bytes.{be32}
use libgroupcache.AsyncReader.{
  Ctx, Callback, Accepts, Call, ReadState, reading_record, reading_rsep, reading_none,
  reading_magic, reading_hdr, reading_done, is_in, chunk_size, record_separator,
  move_to_next_record, Round, again, leave, v2_next, new_ctx, v2_round, ended, running, loop,
  parse_protocol, reset, read_first, read_magic, read_hdr, tell_done, update_ctx, input_data,
}
use libgroupcache.AsyncReader.Rounds.{waiting, part_call, behind, first_round}
use libgroupcache.AsyncReader.Loops.{lost-running}

nothing_taken :
    (a : Ctx) (taken : List ℕ)
    → (length taken == 0) ≡ true
    → ended a ≡ ended (record a { buf = a.buf ++ taken })
nothing_taken a [] z = rw (append-nil a.buf) refl
nothing_taken a (x ∷ taken) z = absurd (ground arith)

two_rounds :
    (round : Ctx → Round) (a b c : Ctx) (fuel : ℕ)
    → 2 ≤ fuel
    → round a ≡ again b
    → round b ≡ leave c
    → loop round fuel a ≡ ended c
unfolding loop
two_rounds round a b c zero le e f = absurd (omega arith)
two_rounds round a b c (suc zero) le e f = absurd (omega arith)
two_rounds round a b c (suc (suc n)) le e f = rw (e, loop) (rw (f, loop) refl)

abbrev pub stranded : List Call → ℕ → List ℕ → List ℕ → Ctx
stranded calls rnum xs rest =
    record (waiting new_ctx
      (record { payload = []; index = pos rnum; total = length xs } ∷ part_call rnum xs ∷ calls)
      (rnum + 1) rest) { clen = length xs % u16_mod; coff = length xs }

second_round :
    (cb : Callback) (calls : List Call) (rnum : ℕ) (xs rest : List ℕ)
    → Accepts cb
    → 1 ≤ length xs
    → length rest < 4
    → v2_round cb (behind new_ctx calls rnum xs (record_separator ∷ rest))
      ≡ leave (stranded calls rnum xs rest)
unfolding v2_round v2_next move_to_next_record
second_round cb calls rnum xs rest accepts one few =
    let same : (length xs == length xs) ≡ true = ground arith in
    let some_read : ltb 0 (length xs) ≡ true = ground arith in
    let more : (length (record_separator ∷ rest) == 0) ≡ false = ground arith in
    let short : ltb (length rest) 4 ≡ true = ground arith in
    let ended : Call = record { payload = []; index = pos rnum; total = length xs } in
    let heard = accepts (part_call rnum xs ∷ calls) ended refl in
    rw (same, some_read, more) (rw heard (rw short refl))

is_in-rsep :
    (a : Ctx)
    → a.state ≡ reading_rsep
    → (s : ReadState) → is_in reading_rsep s ≡ false
    → is_in a.state s ≡ false
is_in-rsep a h s n = rw h n

-- async_read_context_update does not go on in the separator state.
update_ctx-rsep : (cb : Callback) (a : Ctx) → a.state ≡ reading_rsep → update_ctx cb a ≡ ended a
unfolding update_ctx reset read_first read_magic read_hdr tell_done
update_ctx-rsep cb a h =
    let off = is_in-rsep a h in
    let done = off reading_done refl in
    rw done (
      rw (off reading_none refl) (
        rw (off reading_magic refl) (
          rw (off reading_hdr refl) (
            rw (off reading_record refl) (elim (Bool-cases (length a.buf == 0)) [
              | inl z ↦ rw z refl
              | inr z ↦ rw z (rw done refl)
            ])))))

-- async_read_context_input_data, in the state SHC_STATE_READING_RSEP, on any bytes: the state stays,
-- no callback is called, and the bytes that the buffer has room for stay in it.
pub input_data-rsep :
    (cb : Callback) (bytes : List ℕ) (a : Ctx)
    → a.state ≡ reading_rsep
    → let kept = record a { buf = a.buf ++ take (chunk_size - length a.buf) bytes } in
      input_data cb bytes a ≡ ended kept
unfolding input_data
input_data-rsep cb bytes a h =
    let taken = take (chunk_size - length a.buf) bytes in
    elim (Bool-cases (length taken == 0)) [
      | inl z ↦ rw z (nothing_taken a taken z)
      | inr z ↦ rw z (update_ctx-rsep cb _ h)
    ]

-- async_read_parse_protocol_v2, for a callback that returns 0 but for an error, in a context that waits for a record and
-- has in its buffer a whole record, of 1 to 65535 bytes, its separator and fewer than 4 bytes: the
-- loop ends; but then, whatever bytes come behind, it does not end, however many rounds it runs.
pub parse_protocol-endless :
    (cb : Callback) (calls : List Call) (rnum : ℕ) (xs rest : List ℕ)
    → Accepts cb
    → 1 ≤ length xs
    → length xs < 2 ^ 16
    → length rest < 4
    → (b : Ctx) × (parse_protocol cb
          (waiting new_ctx calls rnum (be32 (length xs) ++ (xs ++ record_separator ∷ rest)))
        ≡ ended b)
      × (b.state ≡ reading_record)
      × ((more : List ℕ) (n : ℕ)
          → let c = record b { buf = b.buf ++ more } in loop (v2_round cb) n c ≡ running c)
unfolding parse_protocol be32
parse_protocol-endless cb calls rnum xs rest accepts one fits few = (
  stranded calls rnum xs rest,
  two_rounds (v2_round cb) _ _ _ _ (omega arith)
      (first_round cb new_ctx calls rnum xs (record_separator ∷ rest) accepts one (omega arith)
        fits)
      (second_round cb calls rnum xs rest accepts one few),
  refl,
  λ more n. lost-running cb n _ (record { rlen = refl; coff = ground arith }),
)
