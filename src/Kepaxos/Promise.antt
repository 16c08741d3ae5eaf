-- ===== src/Kepaxos/Promise.antt =====
-- What the replies of src/kepaxos.c to pre-accept and accept messages promise.
use libgroupcache.Base.{
  ℕ, ◌≤◌, ◌<◌, ◌≡◌, ◌≢◌, ◌↔◌, ◌⊎◌, refl, sym, ltb→lt, Option, none, some, Option-cases, Bool-cases,
  inl, inr, List, arith, ltb, pos, some_inj,
}
use libgroupcache.Kepaxos.Message.{Msg}
use libgroupcache.Kepaxos.Log.{last_seq_for_key}
use libgroupcache.Kepaxos.State.{accepted, Cmd, Env, EnvLaws, Ke, with_commands, new_cmd}
use libgroupcache.Kepaxos.Replica.{accept_cmd, handle_accept, ignored}

-- What a reply `r` to a pre-accept message holds the replica to: its command of the key has the
-- ballot of the message, and the reply's sequence number is the largest of those that the
-- replica knows. `before` is its command before, `local` the last one committed.
pub record IsPromised (msg r : Msg) (before : Option Cmd) (after : Cmd) (local : ℕ) : Type 0 where
  pub ballot : (r.ballot ≡ msg.ballot) × (after.ballot ≡ msg.ballot)
  pub seq : (msg.seq ≤ r.seq) × (local ≤ r.seq) × (after.seq ≤ r.seq)
  pub known : (r.committed ≡ 1) ↔ (r.seq ≡ local)
  pub older : (c : Cmd) → before ≡ some c → (c.ballot ≤ msg.ballot) × (c.seq ≤ r.seq)

-- What a reply to an accept message tells: the place of the replica's command, which is the
-- message's where that is not behind.
pub record IsAccepted (msg r : Msg) (before : Option Cmd) (after : Cmd) (local : ℕ) : Type 0 where
  pub place : (r.ballot ≡ after.ballot) × (r.seq ≡ after.seq)
  pub seq : msg.seq ≤ after.seq
  pub agreed : r.seq ≡ msg.seq → (after.status ≡ accepted) × (after.ballot ≡ msg.ballot)
  pub known : (r.committed ≡ 1) ↔ (r.seq ≡ local)
  pub older :
      (c : Cmd)
      → before ≡ some c
      → (c.ballot ≤ msg.ballot) × (c.ballot ≤ after.ballot) × (c.seq ≤ after.seq)

module _ {E : Env} where
  -- The commands of the keys after a reply: the one of this key, and the others as they were.
  pub record IsReplied (before after : Ke E) (key : List ℕ) (c : Cmd) : Type 0 where
    pub here : E.get after.commands key ≡ some c
    pub others : (k : List ℕ) → k ≢ key → E.get after.commands k ≡ E.get before.commands k

  set-IsReplied :
      (L : EnvLaws E) (ke ke1 : Ke E) (key : List ℕ) (c : Cmd)
      → ke1.commands ≡ ke.commands
      → IsReplied ke (with_commands ke1 (E.set ke1.commands key c)) key c
  set-IsReplied L ke ke1 key c e = record {
    here = L.get_set ke1.commands key c;
    others = λ k n. rw (L.get_set_other ke1.commands key k c n) (rw e refl);
  }

  accept_cmd-IsAccepted :
      (L : EnvLaws E) (ke : Ke E) (msg : Msg) (local : ℕ) (before : Option Cmd) (c : Cmd)
      → c.ballot ≤ msg.ballot
      → ((b : Cmd) → before ≡ some b → c ≡ b)
      → let h = accept_cmd ke msg local c in
        (r : Msg) × (c' : Cmd) × (h.response ≡ some r)
        × IsReplied ke h.after msg.key c'
        × IsAccepted msg r before c' local
  unfolding accept_cmd
  accept_cmd-IsAccepted L ke msg local before c le same = (
    _,
    _,
    refl,
    set-IsReplied L ke ke msg.key _ refl,
    record {
      place = (ground arith, ground arith);
      seq = ground arith;
      agreed = λ e. (ground arith, ground arith);
      known = ground arith;
      older = λ b e.
          let be = same b e in
          (rw (sym be) le, rw (sym be) (ground arith), rw (sym be) (ground arith));
    },
  )

  -- kepaxos_handle_accept, for a hash table that keeps its laws: it ignores a message whose ballot is
  -- below that of the command in progress, and nothing changes. Else it replies with the place of
  -- its command of the key, which is at or above the message's sequence number; it is accepted at the
  -- message's ballot if the reply has the message's number; neither its ballot nor its number went
  -- down; commands of other keys are as they were; and the flag tells whether the number is the last
  -- committed.
  pub handle_accept-IsAccepted :
      (L : EnvLaws E) (ke : Ke E) (msg : Msg)
      → let h = handle_accept ke msg in
        let before = E.get ke.commands msg.key in
        let last = last_seq_for_key E.path ke.log msg.key in
        ((h ≡ ignored (pos 0) ke) × (c : Cmd) × (before ≡ some c) × (msg.ballot < c.ballot))
        ⊎ ((r : Msg) × (c : Cmd) × (h.response ≡ some r)
            × IsReplied ke h.after msg.key c
            × IsAccepted msg r before c last.0)
  unfolding handle_accept
  handle_accept-IsAccepted L ke msg =
      let before = E.get ke.commands msg.key in
      let last = last_seq_for_key E.path ke.log msg.key in
      elim (Option-cases before) [
        | inl n ↦
            rw (n, handle_accept)
              (inr (
                accept_cmd-IsAccepted L ke msg last.0 none (new_cmd msg.key) (omega arith)
                  (λ b e. ground arith)))
        | inr (c, e) ↦
            rw (e, handle_accept)
              (elim (Bool-cases (ltb msg.ballot c.ballot)) [
                | inl l ↦ rw l (inl (refl, c, refl, ltb→lt _ _ l))
                | inr l ↦ rw l (
                    inr (
                      accept_cmd-IsAccepted L ke msg last.0 (some c) c (ground arith)
                        (λ b be. some_inj c b be)))
              ])
      ]
