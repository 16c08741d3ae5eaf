-- ===== src/Kepaxos/Node.antt =====
-- The entry points of src/kepaxos.c: kepaxos_context_create, kepaxos_received_command,
-- kepaxos_received_response, kepaxos_recovered.
use libgroupcache.Base.{
  ℕ, ◌+◌, ◌%◌, ◌&&◌, Option, none, some, List, [], length, ltb, leb, ◌==◌, if◌then◌else◌, pos,
  minus_one,
}
use libgroupcache.Base.Words.{add64}
use libgroupcache.Kepaxos.Message.{Msg, Parsed, fault, rejected, parsed, parse_message}
use libgroupcache.Kepaxos.Log.{Log, last_seq_for_key, set_last_seq_for_key}
use libgroupcache.Kepaxos.State.{Env, Ke, ballot_value, update_ballot, with_log, with_ballot}
use libgroupcache.Kepaxos.Replica.{
  Handled, ignored, handle_preaccept, handle_accept, handle_commit, pre_accept_type,
  pre_accept_response_type, accept_type, accept_response_type, commit_type,
}
use libgroupcache.Kepaxos.Leader.{handle_preaccept_response, handle_accept_response}

module _ {E : Env} where
  abbrev pub see_ballot : Ke E → Msg → Ke E
  see_ballot ke msg = with_ballot ke (update_ballot ke.my_index ke.ballot msg.ballot)

  -- The switch of kepaxos_received_command.
  unfoldable pub dispatch_command : Ke E → Msg → Handled E
  dispatch_command ke msg =
      if msg.mtype == pre_accept_type
      then handle_preaccept ke msg
      else if msg.mtype == accept_type
      then handle_accept ke msg
      else if msg.mtype == commit_type
      then handle_commit ke msg
      else ignored minus_one ke

  -- The switch of kepaxos_received_response.
  unfoldable pub dispatch_response : Ke E → Msg → Handled E
  dispatch_response ke msg =
      if msg.mtype == pre_accept_response_type
      then handle_preaccept_response ke msg
      else if msg.mtype == accept_response_type
      then handle_accept_response ke msg
      else ignored minus_one ke

  -- What comes after parsing; a read outside the buffer has no result.
  abbrev pub on_parsed : Ke E → Parsed → (Ke E → Msg → Handled E) → Option (Handled E)
  on_parsed ke fault dispatch = none
  on_parsed ke rejected dispatch = some (ignored minus_one ke)
  on_parsed ke (parsed msg) dispatch = some (dispatch (see_ballot ke msg) msg)

  -- kepaxos_received_command, on the bytes of the message
  unfoldable pub received_command : Ke E → List ℕ → Option (Handled E)
  received_command ke bytes =
      if ltb (length bytes) 16
      then some (ignored minus_one ke)
      else on_parsed ke (parse_message bytes) dispatch_command

  -- kepaxos_received_response
  unfoldable pub received_response : Ke E → List ℕ → Option (Handled E)
  received_response ke bytes =
      if ltb (length bytes) 16
      then some (ignored minus_one ke)
      else on_parsed ke (parse_message bytes) dispatch_response

  -- kepaxos_recovered
  unfoldable pub recovered : Ke E → List ℕ → ℕ → ℕ → Handled E
  recovered ke key ballot seq =
      let (last_seq, last_ballot) = last_seq_for_key E.path ke.log key in
      if leb last_seq seq && leb last_ballot ballot
      then ignored (pos 0) (with_log ke (set_last_seq_for_key E.path ke.log key ballot seq))
      else ignored minus_one ke

-- kepaxos_context_create over a log; the index becomes a byte.
unfoldable pub context_create : (E : Env) → Log → List (List ℕ) → ℕ → Ke E
context_create E log peers index =
    let my_index = index % 256 in
    record {
      log = log;
      commands = E.empty;
      peers = peers;
      num_peers = length peers;
      my_index = my_index;
      ballot = update_ballot my_index (256 + my_index) (add64 (ballot_value log.max_ballot) 1);
      events = [];
    }
