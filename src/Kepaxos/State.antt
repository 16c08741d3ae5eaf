-- ===== src/Kepaxos/State.antt =====
-- The state of src/kepaxos.c: kepaxos_t, the commands in progress, and what the code calls.
use libgroupcache.Base.{
  ℕ, ◌+◌, ◌*◌, ◌/◌, ◌%◌, ◌≡◌, ◌≢◌, Bool, true, false, Option, none, some, List, [], ◌∷◌, ltb, ◌==◌,
  if◌then◌else◌, ℤ,
}
use libgroupcache.Base.Words.{u64_mod}
use libgroupcache.Kepaxos.Message.{Msg}
use libgroupcache.Kepaxos.Log.{Log}

-- kepaxos_cmd_status_t; no code sets KEPAXOS_CMD_STATUS_COMMITTED.
pub data Status : Type 0 where
  no_status pre_accepted accepted settled : Status

abbrev pub is_pre_accepted : Status → Bool
is_pre_accepted pre_accepted = true
is_pre_accepted _ = false

abbrev pub is_accepted : Status → Bool
is_accepted accepted = true
is_accepted _ = false

-- kepaxos_vote_t; its key and klen are never set.
pub record Vote : Type 0 where
  pub peer : List ℕ
  pub ballot : ℕ
  pub seq : ℕ

-- struct _kepaxos_cmd_s, without its lock, its condition and the times of expiry, which read the
-- clock. `type` is called ctype, as in a message.
pub record Cmd : Type 0 where
  pub ctype : ℕ
  pub status : Status
  pub seq : ℕ
  pub key : List ℕ
  pub payload : List ℕ
  pub votes : List Vote
  pub num_votes : ℕ
  pub max_seq : ℕ
  pub max_seq_committed : ℕ
  pub max_voter : Option (List ℕ)
  pub ballot : ℕ
  pub waiting : Bool

-- calloc, with the key.
abbrev pub new_cmd : List ℕ → Cmd
new_cmd k = record {
  ctype = 0;
  status = no_status;
  seq = 0;
  key = k;
  payload = [];
  votes = [];
  num_votes = 0;
  max_seq = 0;
  max_seq_committed = 0;
  max_voter = none;
  ballot = 0;
  waiting = false;
}

-- What the protocol does to the outside: messages to all peers but this one, the commit callback
-- with its flag for the leader, and the recover callback with the peer's index, sequence and ballot.
pub data Event : Type 0 where
  sent : Msg → Event
  commit_call : ℕ → List ℕ → List ℕ → Bool → Event
  recover_call : ℕ → List ℕ → ℕ → ℕ → Event

-- What src/kepaxos.c calls: the hash table of the commands (ht_create, ht_get, ht_set, ht_delete),
-- the name of a key's directory in the log, and the callbacks commit and send, whose results may
-- depend on all that happened before.
pub record Env : Type 1 where
  pub Table : Type 0
  pub empty : Table
  pub get : Table → List ℕ → Option Cmd
  pub set : Table → List ℕ → Cmd → Table
  pub delete : Table → List ℕ → Table
  pub path : List ℕ → ℕ
  pub commit : List Event → ℕ → List ℕ → List ℕ → ℤ
  pub send : List Event → Msg → ℤ

-- The documented behaviour of the hash table.
pub record EnvLaws (E : Env) : Type 0 where
  pub get_set : (t : E.Table) (k : List ℕ) (c : Cmd) → E.get (E.set t k c) k ≡ some c
  pub get_set_other :
      (t : E.Table) (k j : List ℕ) (c : Cmd) → j ≢ k → E.get (E.set t k c) j ≡ E.get t j
  pub get_delete : (t : E.Table) (k : List ℕ) → E.get (E.delete t k) k ≡ none
  pub get_delete_other : (t : E.Table) (k j : List ℕ) → j ≢ k → E.get (E.delete t k) j ≡ E.get t j

-- kepaxos_t. The trace `events` has the latest event first. A command is a value in the table:
-- the code writes to it through its pointer while it is there.
pub record Ke (E : Env) : Type 0 where
  pub log : Log
  pub commands : E.Table
  pub peers : List (List ℕ)
  pub num_peers : ℕ
  pub my_index : ℕ
  pub ballot : ℕ
  pub events : List Event

-- BALLOT_VALUE, BALLOT2NODEINDEX
abbrev pub ballot_value : ℕ → ℕ
ballot_value b = b / 256

abbrev pub ballot_node : ℕ → ℕ
ballot_node b = b % 256

-- update_ballot, on the current ballot; `my_index` is a byte. kepaxos_reset_ballot does nothing.
unfoldable pub update_ballot : ℕ → ℕ → ℕ → ℕ
update_ballot my_index current ballot =
    let updated = (ballot_value ballot + 1) % u64_mod in
    let mine = updated * 256 % u64_mod + my_index in
    if ballot_value ballot == 0
    then current
    else if updated == 0
    then my_index
    else if ltb current mine
    then mine
    else current

module _ {E : Env} where
  abbrev pub with_log : Ke E → Log → Ke E
  with_log ke l = record {
    log = l;
    commands = ke.commands;
    peers = ke.peers;
    num_peers = ke.num_peers;
    my_index = ke.my_index;
    ballot = ke.ballot;
    events = ke.events;
  }

  abbrev pub with_commands : Ke E → E.Table → Ke E
  with_commands ke t = record {
    log = ke.log;
    commands = t;
    peers = ke.peers;
    num_peers = ke.num_peers;
    my_index = ke.my_index;
    ballot = ke.ballot;
    events = ke.events;
  }

  abbrev pub with_ballot : Ke E → ℕ → Ke E
  with_ballot ke b = record {
    log = ke.log;
    commands = ke.commands;
    peers = ke.peers;
    num_peers = ke.num_peers;
    my_index = ke.my_index;
    ballot = b;
    events = ke.events;
  }

  abbrev pub with_event : Ke E → Event → Ke E
  with_event ke e = record {
    log = ke.log;
    commands = ke.commands;
    peers = ke.peers;
    num_peers = ke.num_peers;
    my_index = ke.my_index;
    ballot = ke.ballot;
    events = e ∷ ke.events;
  }
