-- ===== src/Kepaxos/Leader.antt =====
-- The part of src/kepaxos.c that leads a command: kepaxos_command_create, the responses to
-- pre-accept and accept messages, and kepaxos_commit.
use libgroupcache.Base.{
  ℕ, zero, suc, ◌+◌, ◌%◌, ◌/◌, true, false, not, ◌&&◌, ◌||◌, Option, none, some, List, [], ◌∷◌,
  ◌++◌, take, get_or, ltb, leb, ◌==◌, if◌then◌else◌, pos, minus_one,
}
use libgroupcache.Base.Words.{max_of, add64, u16_mod}
use libgroupcache.Kepaxos.Message.{Msg}
use libgroupcache.Kepaxos.Log.{last_seq_for_key, set_last_seq_for_key}
use libgroupcache.Kepaxos.State.{
  Status, accepted, pre_accepted, is_accepted, is_pre_accepted, Cmd, Vote, sent, commit_call, Env,
  Ke, with_log, with_commands, with_event,
}
use libgroupcache.Kepaxos.Replica.{
  Handled, ignored, message, pre_accept_type, accept_type, commit_type, flag_of,
}

abbrev pub with_tally : Cmd → List Vote → ℕ → ℕ → ℕ → Option (List ℕ) → Cmd
with_tally c votes num_votes max_seq max_seq_committed max_voter = record {
  ctype = c.ctype;
  status = c.status;
  seq = c.seq;
  key = c.key;
  payload = c.payload;
  votes = votes;
  num_votes = num_votes;
  max_seq = max_seq;
  max_seq_committed = max_seq_committed;
  max_voter = max_voter;
  ballot = c.ballot;
  waiting = c.waiting;
}

-- A command that starts to collect votes again, at another place.
abbrev pub restarted : Cmd → Status → ℕ → ℕ → Cmd
restarted c status seq ballot = record {
  ctype = c.ctype;
  status = status;
  seq = seq;
  key = c.key;
  payload = c.payload;
  votes = [];
  num_votes = 0;
  max_seq = 0;
  max_seq_committed = c.max_seq_committed;
  max_voter = none;
  ballot = ballot;
  waiting = c.waiting;
}

-- The vote of a response; realloc keeps `num_votes` of them, a 16-bit number.
abbrev pub vote_of : Msg → Vote
vote_of msg = record { peer = msg.peer; ballot = msg.ballot; seq = msg.seq }

abbrev pub votes_with : Cmd → Msg → List Vote
votes_with c msg = take c.num_votes c.votes ++ vote_of msg ∷ []

abbrev pub num_votes_with : Cmd → ℕ
num_votes_with c = (c.num_votes + 1) % u16_mod

-- max_seq after a response, and the peer that voted for it.
abbrev pub voter_with : Cmd → Msg → ℕ → Option (List ℕ)
voter_with c msg max_seq = if max_seq == msg.seq then some msg.peer else c.max_voter

-- A vote in kepaxos_handle_preaccept_response.
unfoldable pub preaccept_vote : Cmd → Msg → Cmd
preaccept_vote c msg =
    let max_seq = max_of c.max_seq msg.seq in
    let committed =
      if not (msg.seq == c.max_seq)
      then flag_of (not (msg.committed == 0) && (max_seq == msg.seq))
      else if not (msg.committed == 0)
      then 1
      else c.max_seq_committed in
    with_tally c (votes_with c msg) (num_votes_with c) max_seq committed (voter_with c msg max_seq)

-- A vote in kepaxos_handle_accept_response.
unfoldable pub accept_vote : Cmd → Msg → Cmd
accept_vote c msg =
    let max_seq = max_of c.max_seq msg.seq in
    with_tally c (votes_with c msg) (num_votes_with c) max_seq c.max_seq_committed
      (voter_with c msg max_seq)

-- The votes for the sequence number and the ballot of the message.
unfoldable pub count_ok : Msg → List Vote → ℕ
count_ok msg [] = 0
count_ok msg (v ∷ votes) =
    if (v.seq == msg.seq) && (v.ballot == msg.ballot)
    then suc (count_ok msg votes)
    else count_ok msg votes

-- The sequence number after the last one, and after that of a command in the table.
unfoldable pub next_place : ℕ → Option Cmd → ℕ
next_place next none = next
next_place next (some prev) = max_of next (add64 prev.seq 1)

module _ {E : Env} where
  -- A message is sent, and what send returns is the handler's result.
  unfoldable pub send_all : Ke E → Msg → Handled E
  send_all ke msg = record {
    code = E.send ke.events msg;
    response = none;
    after = with_event ke (sent msg);
  }

  -- kepaxos_send_accept
  abbrev pub send_accept : Ke E → ℕ → List ℕ → ℕ → Handled E
  send_accept ke ballot key seq = send_all ke (message ke accept_type ballot key seq 0)

  -- The message of kepaxos_send_commit.
  abbrev pub commit_message : Ke E → Cmd → Msg
  commit_message ke cmd = record {
    peer = get_or ke.peers ke.my_index [];
    ballot = cmd.ballot;
    seq = cmd.seq;
    mtype = commit_type;
    ctype = cmd.ctype;
    committed = 1;
    key = cmd.key;
    payload = cmd.payload;
  }

  -- kepaxos_commit
  unfoldable pub commit : Ke E → Cmd → Handled E
  commit ke cmd =
      let rc = E.commit ke.events cmd.ctype cmd.key cmd.payload in
      let ke1 = with_event ke (commit_call cmd.ctype cmd.key cmd.payload true) in
      elim rc [
        | pos zero ↦
            send_all (with_log ke1 (set_last_seq_for_key E.path ke.log cmd.key cmd.ballot cmd.seq))
              (commit_message ke cmd)
        | r ↦ ignored r ke1
      ]

  -- The part of kepaxos_handle_preaccept_response on a command whose vote has been added.
  unfoldable pub preaccept_decide : Ke E → Msg → Cmd → Handled E
  preaccept_decide ke msg cmd =
      let short =
        ltb cmd.max_seq cmd.seq || ((cmd.seq == cmd.max_seq) && (cmd.max_seq_committed == 0)) in
      let again = restarted cmd accepted (add64 cmd.max_seq 1) ke.ballot in
      let pending = with_commands ke (E.set ke.commands msg.key cmd) in
      if ltb cmd.num_votes (ke.num_peers / 2)
      then ignored (pos 0) pending
      else if short
      then commit (with_commands ke (E.delete ke.commands msg.key)) cmd
      else send_accept (with_commands ke (E.set ke.commands msg.key again)) ke.ballot msg.key
          again.seq

  -- kepaxos_handle_preaccept_response
  unfoldable pub handle_preaccept_response : Ke E → Msg → Handled E
  handle_preaccept_response ke msg = elim (E.get ke.commands msg.key) [
    | none ↦ ignored (pos 0) ke
    | some c ↦
        if ltb msg.ballot c.ballot
        then ignored minus_one ke
        else if not (is_pre_accepted c.status)
        then ignored minus_one ke
        else preaccept_decide ke msg (preaccept_vote c msg)
  ]

  -- The command is tried again at another sequence number, under the current ballot.
  abbrev pub retry : Ke E → Msg → Cmd → ℕ → Handled E
  retry ke msg cmd seq =
      send_accept
        (with_commands ke (E.set ke.commands msg.key (restarted cmd cmd.status seq ke.ballot)))
        ke.ballot msg.key seq

  -- The part of kepaxos_handle_accept_response on a command whose vote has been added.
  unfoldable pub accept_decide : Ke E → Msg → Cmd → Handled E
  accept_decide ke msg cmd =
      if ltb (count_ok msg cmd.votes) (ke.num_peers / 2)
      then if leb (ke.num_peers / 2) cmd.num_votes
        then retry ke msg cmd (if leb cmd.seq cmd.max_seq then add64 cmd.seq 1 else cmd.seq)
        else ignored (pos 0) (with_commands ke (E.set ke.commands msg.key cmd))
      else commit (with_commands ke (E.delete ke.commands msg.key)) cmd

  -- kepaxos_handle_accept_response
  unfoldable pub handle_accept_response : Ke E → Msg → Handled E
  handle_accept_response ke msg = elim (E.get ke.commands msg.key) [
    | none ↦ ignored (pos 0) ke
    | some c ↦
        if ltb msg.ballot c.ballot
        then ignored minus_one ke
        else if not (is_accepted c.status)
        then ignored minus_one ke
        else if (c.seq == msg.seq) && not (msg.committed == 0)
        then retry ke msg c (add64 c.seq 1)
        else accept_decide ke msg (accept_vote c msg)
  ]

  -- kepaxos_command_create, with `seq` the last one of the key. A command that it displaces is
  -- destroyed, which its waiter sees.
  unfoldable pub command_create : Ke E → ℕ → ℕ → List ℕ → List ℕ → Cmd
  command_create ke seq ctype key payload =
      let next = add64 seq 1 in
      let place = next_place next (E.get ke.commands key) in
      record {
        ctype = ctype;
        status = pre_accepted;
        seq = place;
        key = key;
        payload = payload;
        votes = [];
        num_votes = 0;
        max_seq = 0;
        max_seq_committed = 0;
        max_voter = none;
        ballot = ke.ballot;
        waiting = false;
      }

  -- kepaxos_run_command up to the send of the pre-accept messages.
  unfoldable pub run_command_begin : Ke E → ℕ → List ℕ → List ℕ → Handled E
  run_command_begin ke ctype key payload =
      let (last, _) = last_seq_for_key E.path ke.log key in
      let cmd = command_create ke last ctype key payload in
      send_all (with_commands ke (E.set ke.commands key cmd))
        (message ke pre_accept_type cmd.ballot key cmd.seq 0)
