-- ===== src/AsyncReader/Loops.antt =====
-- The loops of src/async_reader.c: that of version 1 ends, that of version 2 need not.
use libgroupcache.Base.{ℕ, zero, suc, ◌<◌, ◌≡◌, ◌≢◌, refl, false, ◌&&◌, length, arith, ltb, ◌==◌}
use libgroupcache.AsyncReader.{
  Ctx, Callback, reading_record, is_in, Round, again, leave, overrun, v2_chunk, v2_round, running,
  loop,
}

-- A round that goes on leaves fewer bytes than `n`; it never writes outside the chunk.
abbrev Advances : Round → ℕ → Type 0
Advances (again b) n = length b.buf < n
Advances (leave b) n = Unit
Advances overrun n = ⊥

-- A context that is neither at the end of a record nor within one.
pub record IsLost (a : Ctx) : Type 0 where
  pub rlen : a.rlen ≡ 0
  pub coff : a.coff ≢ 0

v2_round-lost : (cb : Callback) (a : Ctx) → IsLost a → v2_round cb a ≡ again a
unfolding v2_round v2_chunk
v2_round-lost cb a h =
    let out : ((a.coff == a.rlen) && is_in a.state reading_record) ≡ false =
      ground (arith, h.rlen, h.coff) in
    let off : ltb a.coff a.rlen ≡ false = ground (arith, h.rlen) in rw (out, off) refl

pub lost-running : (cb : Callback) (n : ℕ) (a : Ctx) → IsLost a → loop (v2_round cb) n a ≡ running a
unfolding loop
lost-running cb zero a h = refl
lost-running cb (suc n) a h = rw (v2_round-lost cb a h, loop) (lost-running cb n a h)
