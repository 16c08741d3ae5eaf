-- ===== src/Kepaxos/Books.antt =====
-- The log under the handlers of src/kepaxos.c: what was committed for a key is not undone by the
-- messages of other nodes.
use libgroupcache.Base.{ℕ, ◌≤◌, ◌≡◌, ◌↔◌, ◌&&◌, Bool-cases, inl, inr, List, arith, leb, pos}
use libgroupcache.Kepaxos.Log.{Log, entry, last_seq_for_key, set_last_seq_for_key}
use libgroupcache.Kepaxos.State.{Env, Ke}
use libgroupcache.Kepaxos.Node.{recovered}

-- No directory's sequence number, nor the largest ballot, has gone down.
pub record IsLater (old new : Log) : Type 0 where
  pub seqs : (d : ℕ) → (entry old d).0 ≤ (entry new d).0
  pub ballots : old.max_ballot ≤ new.max_ballot

IsLater-refl : (log : Log) → IsLater log log
IsLater-refl log = record { seqs = λ d. omega arith; ballots = omega arith }

-- A write of a sequence number that is not below the last one.
set_last_seq_for_key-IsLater :
    (path : List ℕ → ℕ) (log : Log) (key : List ℕ) (ballot seq : ℕ)
    → (last_seq_for_key path log key).0 ≤ seq
    → IsLater log (set_last_seq_for_key path log key ballot seq)
unfolding last_seq_for_key set_last_seq_for_key
set_last_seq_for_key-IsLater path log key ballot seq h = record {
  seqs = λ d. ground arith;
  ballots = ground arith;
}

module _ {E : Env} where
  -- kepaxos_recovered: no key's sequence number in the log, nor the largest ballot, goes down; it
  -- returns 0 exactly where the log then has the given sequence number and ballot for the key.
  pub recovered-IsLater :
      (ke : Ke E) (key : List ℕ) (ballot seq : ℕ)
      → IsLater ke.log (recovered ke key ballot seq).after.log
        × ((recovered ke key ballot seq).code ≡ pos 0
            ↔ last_seq_for_key E.path (recovered ke key ballot seq).after.log key ≡ (seq, ballot))
  unfolding recovered last_seq_for_key set_last_seq_for_key
  recovered-IsLater ke key ballot seq =
      let (last_seq, last_ballot) = last_seq_for_key E.path ke.log key in
      let set = set_last_seq_for_key-IsLater E.path ke.log key ballot seq in
      elim (Bool-cases (leb last_seq seq && leb last_ballot ballot)) [
        | inl o ↦ rw o (set (ground arith), ground arith)
        | inr o ↦ rw o (IsLater-refl ke.log, ground arith)
      ]
