-- ===== src/AsyncReader/Tests.antt =====
-- The reader of src/async_reader.c on small inputs, with a callback that returns 0.
use libgroupcache.Base.{ℕ, ◌≡◌, ◌++◌, refl, true, List, [], ◌∷◌, arith}
use libgroupcache.Base.Bytes.{be32}
use libgroupcache.AsyncReader.{
  Ctx, Callback, reading_record, reading_rsep, reading_done, record_separator, v2_round, ended,
  running, loop, parse_protocol, update_ctx, new_ctx, reset, read_first, skip_noops, read_magic,
  read_hdr, v2_next, v2_chunk, v1_round, v1_next, v1_chunk, move_to_next_record, tell_done,
}
use libgroupcache.AsyncReader.Rounds.{waiting}
use libgroupcache.AsyncReader.Cuts.{parse_protocol-endless}

abbrev quiet : Callback
quiet cs c = true

-- A version 1 record of two bytes, and its end.
abbrev v1_ctx : Ctx
v1_ctx = record new_ctx {
  state = reading_record;
  version = 1;
  buf = 0 ∷ 2 ∷ 65 ∷ 66 ∷ 0 ∷ 0 ∷ 0 ∷ [];
}

-- The context after the length 0, with no byte behind it.
abbrev cut_ctx : Ctx
cut_ctx = record new_ctx { state = reading_rsep; version = 1 }

parse_protocol-endless_example :
    (b : Ctx) × (parse_protocol quiet
        (waiting new_ctx [] 0 (be32 1 ++ (65 ∷ record_separator ∷ 0 ∷ [])))
      ≡ ended b)
    × (b.state ≡ reading_record)
    × ((more : List ℕ) (n : ℕ)
        → let c = record b { buf = b.buf ++ more } in loop (v2_round quiet) n c ≡ running c)
parse_protocol-endless_example =
    parse_protocol-endless quiet [] 0 (65 ∷ []) (0 ∷ []) (λ cs c h. refl) (omega arith)
      (omega arith) (omega arith)

-- The whole state machine: alive bytes, the magic number, a header and one record.
whole :
    (b : Ctx) × (update_ctx quiet
        (record new_ctx { buf = 144 ∷ 115 ∷ 104 ∷ 99 ∷ 2 ∷ 1 ∷ 0 ∷ 0 ∷ 0 ∷ 1 ∷ 65 ∷ 0 ∷ [] })
      ≡ ended b)
    × (b.state ≡ reading_done)
    × (b.hdr ≡ 1)
unfolding update_ctx reset read_first skip_noops read_magic read_hdr parse_protocol loop v2_round
    v2_next v2_chunk move_to_next_record tell_done
whole = (_, refl, refl, refl)

-- The length 0 of version 1 without the byte behind it.
cut :
    (b : Ctx) × (update_ctx quiet
        (record new_ctx { state = reading_record; version = 1; buf = 0 ∷ 0 ∷ [] })
      ≡ ended b)
    × (b.state ≡ reading_rsep)
unfolding update_ctx reset read_first skip_noops read_magic read_hdr parse_protocol loop v1_round
    v1_next v1_chunk move_to_next_record tell_done
cut = (_, refl, refl)
