-- ===== src/Kepaxos/Replica.antt =====
-- The handlers of src/kepaxos.c that a replica runs on the messages of the others: pre-accept,
-- accept and commit.
use libgroupcache.Base.{
  ℕ, Bool, false, not, ◌&&◌, Option, none, some, List, [], get_or, ltb, leb, ◌==◌, if◌then◌else◌, ℤ,
  pos, minus_one,
}
use libgroupcache.Base.Words.{max_of}
use libgroupcache.Kepaxos.Message.{Msg}
use libgroupcache.Kepaxos.Log.{last_seq_for_key, set_last_seq_for_key}
use libgroupcache.Kepaxos.State.{
  Status, accepted, pre_accepted, is_accepted, Cmd, new_cmd, commit_call, recover_call, Env, Ke,
  ballot_node, with_log, with_commands, with_event,
}

-- A handler's result: its code, the response if it builds one, and the state.
pub record Handled (E : Env) : Type 0 where
  pub code : ℤ
  pub response : Option Msg
  pub after : Ke E

abbrev pub with_place : Cmd → Status → ℕ → ℕ → Cmd
with_place c status seq ballot = record {
  ctype = c.ctype;
  status = status;
  seq = seq;
  key = c.key;
  payload = c.payload;
  votes = c.votes;
  num_votes = c.num_votes;
  max_seq = c.max_seq;
  max_seq_committed = c.max_seq_committed;
  max_voter = c.max_voter;
  ballot = ballot;
  waiting = c.waiting;
}

-- The types of messages.
abbrev pub pre_accept_type : ℕ
pre_accept_type = 1

abbrev pub pre_accept_response_type : ℕ
pre_accept_response_type = 2

abbrev pub accept_type : ℕ
accept_type = 3

abbrev pub accept_response_type : ℕ
accept_response_type = 4

abbrev pub commit_type : ℕ
commit_type = 5

abbrev pub flag_of : Bool → ℕ
flag_of b = if b then 1 else 0

-- The command of the key, with the ballot raised to the message's, or a new one at its place.
unfoldable pub preaccept_cmd : Msg → Option Cmd → Cmd
preaccept_cmd msg (some c) = with_place c c.status c.seq (max_of msg.ballot c.ballot)
preaccept_cmd msg none = with_place (new_cmd msg.key) Status.no_status msg.seq msg.ballot

abbrev pub seq_or_zero : Option Cmd → ℕ
seq_or_zero (some c) = c.seq
seq_or_zero none = 0

-- Whether the command of the key makes kepaxos_handle_commit ignore the message.
abbrev pub outbids : Msg → Option Cmd → Bool
outbids msg none = false
outbids msg (some c) = (c.seq == msg.seq) && ltb msg.ballot c.ballot

module _ {E : Env} where
  -- A message of this node without data, as kepaxos_build_message gets it.
  abbrev pub message : Ke E → ℕ → ℕ → List ℕ → ℕ → ℕ → Msg
  message ke mtype ballot key seq committed = record {
    peer = get_or ke.peers ke.my_index [];
    ballot = ballot;
    seq = seq;
    mtype = mtype;
    ctype = 0;
    committed = committed;
    key = key;
    payload = [];
  }

  -- IS_MY_BALLOT
  abbrev pub is_my_ballot : Ke E → ℕ → Bool
  is_my_ballot ke b = ke.my_index == ballot_node b

  abbrev pub ignored : ℤ → Ke E → Handled E
  ignored code ke = record { code = code; response = none; after = ke }

  -- The part of kepaxos_handle_preaccept behind the test of the ballots.
  unfoldable pub preaccept_new : Ke E → Msg → ℕ → Option Cmd → Handled E
  preaccept_new ke msg local_seq found =
      let cmd = preaccept_cmd msg found in
      let interfering = max_of local_seq (seq_or_zero found) in
      let max_seq = max_of msg.seq interfering in
      let newer = leb interfering msg.seq in
      let stored = if newer then with_place cmd pre_accepted interfering cmd.ballot else cmd in
      let asks = newer && (is_accepted cmd.status && not (is_my_ballot ke cmd.ballot)) in
      let ke1 =
        if asks
        then with_event ke (recover_call (ballot_node cmd.ballot) msg.key cmd.seq cmd.ballot)
        else ke in
      record {
        code = pos 0;
        response = some (
            message ke pre_accept_response_type cmd.ballot msg.key max_seq
              (flag_of (max_seq == local_seq)));
        after = with_commands ke1 (E.set ke1.commands msg.key stored);
      }

  -- kepaxos_handle_preaccept
  unfoldable pub handle_preaccept : Ke E → Msg → Handled E
  handle_preaccept ke msg =
      let (local_seq, local_ballot) = last_seq_for_key E.path ke.log msg.key in
      let found = E.get ke.commands msg.key in
      if (local_seq == msg.seq) && (local_ballot == msg.ballot)
      then ignored minus_one ke
      else elim found [
        | none ↦ preaccept_new ke msg local_seq none
        | some c ↦
            if ltb msg.ballot c.ballot
            then ignored minus_one ke
            else preaccept_new ke msg local_seq (some c)
      ]

  -- The part of kepaxos_handle_accept behind the test of the ballots; `cmd` is the command of the
  -- key or a new one.
  unfoldable pub accept_cmd : Ke E → Msg → ℕ → Cmd → Handled E
  accept_cmd ke msg local_seq cmd =
      let newer = leb cmd.seq msg.seq in
      let accepted_ballot = if newer then msg.ballot else cmd.ballot in
      let accepted_seq = if newer then msg.seq else cmd.seq in
      let stored = if newer then with_place cmd accepted msg.seq msg.ballot else cmd in
      record {
        code = pos 0;
        response = some (
            message ke accept_response_type accepted_ballot msg.key accepted_seq
              (flag_of (accepted_seq == local_seq)));
        after = with_commands ke (E.set ke.commands msg.key stored);
      }

  -- kepaxos_handle_accept
  unfoldable pub handle_accept : Ke E → Msg → Handled E
  handle_accept ke msg =
      let (local_seq, _) = last_seq_for_key E.path ke.log msg.key in
      elim (E.get ke.commands msg.key) [
        | none ↦ accept_cmd ke msg local_seq (new_cmd msg.key)
        | some c ↦
            if ltb msg.ballot c.ballot then ignored (pos 0) ke else accept_cmd ke msg local_seq c
      ]

  -- A command up to the committed sequence number leaves the table.
  abbrev pub settle : Ke E → Msg → Option Cmd → Ke E
  settle ke msg none = ke
  settle ke msg (some c) =
      if leb c.seq msg.seq then with_commands ke (E.delete ke.commands msg.key) else ke

  -- kepaxos_handle_commit
  unfoldable pub handle_commit : Ke E → Msg → Handled E
  handle_commit ke msg =
      let found = E.get ke.commands msg.key in
      let (last, _) = last_seq_for_key E.path ke.log msg.key in
      let ke1 = with_event ke (commit_call msg.ctype msg.key msg.payload false) in
      let ke2 = with_log ke1 (set_last_seq_for_key E.path ke.log msg.key msg.ballot msg.seq) in
      if outbids msg found
      then ignored minus_one ke
      else if ltb msg.seq last
      then ignored (pos 0) ke
      else ignored (pos 0) (settle ke2 msg found)
