-- ===== src/Kepaxos/Flow.antt =====
-- Runs of src/kepaxos.c: a new command, its way to a commit, and a reply that is counted as a vote.
use libgroupcache.Base.{
  ℕ, ◌+◌, ◌/◌, ◌^◌, ◌≤◌, ◌<◌, ◌≡◌, ◌≢◌, refl, true, false, not, ◌&&◌, ◌||◌, none, some, List, [],
  ◌∷◌, ◌++◌, take, arith, ltb, ◌==◌, pos,
}
use libgroupcache.Base.Words.{max_of}
use libgroupcache.Kepaxos.Message.{Msg}
use libgroupcache.Kepaxos.Log.{Log, last_seq_for_key, set_last_seq_for_key}
use libgroupcache.Kepaxos.State.{
  is_accepted, is_pre_accepted, accepted, pre_accepted, Cmd, Vote, sent, Env, Ke, with_commands,
}
use libgroupcache.Kepaxos.Replica.{
  message, pre_accept_type, pre_accept_response_type, handle_preaccept, preaccept_new,
  preaccept_cmd,
}
use libgroupcache.Kepaxos.Leader.{
  accept_vote, preaccept_vote, votes_with, num_votes_with, vote_of, count_ok, send_all, commit,
  preaccept_decide, handle_preaccept_response, accept_decide, handle_accept_response,
}

count_ok-append : (msg : Msg) (votes : List Vote) → 1 ≤ count_ok msg (votes ++ vote_of msg ∷ [])
unfolding count_ok
count_ok-append msg [] = ground arith
count_ok-append msg (v ∷ votes) = ground (arith, count_ok-append msg votes)

-- A write to the log is read back.
last_seq-set :
    (path : List ℕ → ℕ) (log : Log) (key : List ℕ) (ballot seq : ℕ)
    → last_seq_for_key path (set_last_seq_for_key path log key ballot seq) key ≡ (seq, ballot)
unfolding last_seq_for_key set_last_seq_for_key
last_seq-set path log key ballot seq = ground arith

module _ {E : Env} where
  commit-log :
      (ke : Ke E) (c : Cmd)
      → E.commit ke.events c.ctype c.key c.payload ≡ pos 0
      → (commit ke c).after.log ≡ set_last_seq_for_key E.path ke.log c.key c.ballot c.seq
  unfolding commit send_all
  commit-log ke c h = rw (h, commit) refl

  -- A command of a client: pre-accepted, without a vote, at the current ballot, with a sequence number
  -- above the last one and above that of the command that it displaces.
  pub record IsProposed (before after : Ke E) (key payload : List ℕ) (ctype : ℕ) (c : Cmd)
      : Type 0 where
    pub here : E.get after.commands key ≡ some c
    pub what : (c.ctype ≡ ctype) × (c.key ≡ key) × (c.payload ≡ payload)
    pub fresh : (c.status ≡ pre_accepted) × (c.votes ≡ []) × (c.num_votes ≡ 0)
    pub place : (c.ballot ≡ before.ballot) × ((last_seq_for_key E.path before.log key).0 < c.seq)
    pub later : (p : Cmd) → E.get before.commands key ≡ some p → p.seq + 1 < 2 ^ 64 → p.seq < c.seq
    pub asked :
        after.events ≡ sent (message before pre_accept_type c.ballot key c.seq 0) ∷ before.events

  -- kepaxos_handle_accept_response, with two or three peers, when the commit callback returns 0: any
  -- response whose ballot is not below the command's and whose sequence number is another than
  -- the command's, which is how a replica refuses, has the command committed at its own number.
  pub accept_response-counts_refusal :
      (ke : Ke E) (msg : Msg) (c : Cmd)
      → E.get ke.commands msg.key ≡ some c
      → c.status ≡ accepted
      → c.ballot ≤ msg.ballot
      → msg.seq ≢ c.seq
      → ke.num_peers ≤ 3
      → E.commit ke.events c.ctype c.key c.payload ≡ pos 0
      → last_seq_for_key E.path (handle_accept_response ke msg).after.log c.key ≡ (c.seq, c.ballot)
  unfolding handle_accept_response accept_decide accept_vote
  accept_response-counts_refusal ke msg c e st le ne few ok =
      let yes : is_accepted c.status ≡ true = rw st refl in
      let not_old : ltb msg.ballot c.ballot ≡ false = ground arith in
      let other : ((c.seq == msg.seq) && not (msg.committed == 0)) ≡ false = ground arith in
      let one = count_ok-append msg (take c.num_votes c.votes) in
      let many : ltb (count_ok msg (votes_with c msg)) (ke.num_peers / 2) ≡ false = ground arith in
      rw (e, handle_accept_response)
        (rw not_old (
          rw yes (
            rw other (
              rw many (
                rw
                  (commit-log (with_commands ke (E.delete ke.commands msg.key)) (accept_vote c msg)
                    ok)
                  (last_seq-set E.path ke.log c.key c.ballot c.seq))))))

  -- A reply of a replica with nothing in progress to a pre-accept message above its last number.
  preaccept-reply :
      (ke : Ke E) (msg : Msg)
      → E.get ke.commands msg.key ≡ none
      → (last_seq_for_key E.path ke.log msg.key).0 < msg.seq
      → (handle_preaccept ke msg).response
        ≡ some (message ke pre_accept_response_type msg.ballot msg.key msg.seq 0)
  unfolding handle_preaccept preaccept_new preaccept_cmd
  preaccept-reply ke msg n lt =
      let last = last_seq_for_key E.path ke.log msg.key in
      let differ : ((last.0 == msg.seq) && (last.1 == msg.ballot)) ≡ false = ground arith in
      let largest : max_of msg.seq (max_of last.0 0) ≡ msg.seq = ground arith in
      let unknown : (msg.seq == last.0) ≡ false = ground arith in
      rw differ (rw (n, handle_preaccept) (rw (largest, unknown) refl))

  -- The pre-accept phase, with two or three peers, for a command as a client's request leaves it, when
  -- the commit callback returns 0: the first answer of a replica that has nothing in progress for
  -- the key and has committed less for it is a vote by which the leader commits, so its log has the
  -- command.
  pub short_path-commits :
      (leader replica : Ke E) (c : Cmd)
      → E.get leader.commands c.key ≡ some c
      → c.status ≡ pre_accepted
      → c.num_votes ≡ 0
      → c.max_seq ≡ 0
      → leader.num_peers ≤ 3
      → E.commit leader.events c.ctype c.key c.payload ≡ pos 0
      → E.get replica.commands c.key ≡ none
      → (last_seq_for_key E.path replica.log c.key).0 < c.seq
      → (r : Msg) × ((handle_preaccept replica
            (message leader pre_accept_type c.ballot c.key c.seq 0)).response
          ≡ some r)
        × (last_seq_for_key E.path (handle_preaccept_response leader r).after.log c.key
            ≡ (c.seq, c.ballot))
  unfolding handle_preaccept_response preaccept_decide preaccept_vote
  short_path-commits leader replica c e st nv ms few ok n lt =
      let msg = message leader pre_accept_type c.ballot c.key c.seq 0 in
      let r = message replica pre_accept_response_type c.ballot c.key c.seq 0 in
      (
        r,
        preaccept-reply replica msg n lt,
        (let v = preaccept_vote c r in
            let not_old : ltb c.ballot c.ballot ≡ false = ground arith in
            let yes : is_pre_accepted c.status ≡ true = rw st refl in
            let many : ltb (num_votes_with c) (leader.num_peers / 2) ≡ false = ground arith in
            let short : (ltb v.max_seq v.seq
                  || ((v.seq == v.max_seq) && (v.max_seq_committed == 0)))
                ≡ true =
              ground arith in
            rw (e, handle_preaccept_response)
              (rw not_old (
                rw yes (
                  rw many (
                    rw short (
                      rw (commit-log (with_commands leader (E.delete leader.commands c.key)) v ok)
                        (last_seq-set E.path leader.log c.key c.ballot c.seq))))))),
      )
