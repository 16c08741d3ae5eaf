-- ===== src/Kepaxos/Tests.antt =====
-- Three nodes of src/kepaxos.c over a small table of commands, and the theorems at their states.
use mathlib.Core.Logic.{ite, if_pos, if_neg}
use libgroupcache.Base.{
  ℕ, ◌<◌, ◌≡◌, ◌≢◌, ◌⊎◌, refl, Option, none, some, List, [], ◌∷◌, arith, keys_discrete, pos, length,
}
use libgroupcache.Kepaxos.Message.{Msg, parsed, fault, build_message, parse_message}
use libgroupcache.Kepaxos.Message.RoundTrip.{IsMsg, parse-build_message}
use libgroupcache.Kepaxos.Message.Bounds.{parse_message-ne-fault}
use libgroupcache.Kepaxos.Log.{Log, last_seq_for_key}
use libgroupcache.Kepaxos.State.{
  Status, pre_accepted, accepted, Cmd, new_cmd, Env, EnvLaws, Ke, update_ballot,
}
use libgroupcache.Kepaxos.Replica.{
  ignored, message, with_place, pre_accept_type, handle_preaccept, handle_accept,
}
use libgroupcache.Kepaxos.Leader.{accept_vote, handle_accept_response, handle_preaccept_response}
use libgroupcache.Kepaxos.Node.{context_create}
use libgroupcache.Kepaxos.Ballot.{IsUpdated, update_ballot-IsUpdated}
use libgroupcache.Kepaxos.Promise.{IsAccepted, IsReplied, handle_accept-IsAccepted}
use libgroupcache.Kepaxos.Quorum.{IsPending, IsDecided, IsAgreed, handle_accept_response-quorum}
use libgroupcache.Kepaxos.Flow.{short_path-commits}

abbrev Map : Type 0
Map = List ℕ → Option Cmd

abbrev write : Map → List ℕ → Option Cmd → Map
write t k v j = ite (keys_discrete j k) v (t j)

-- A table that is a function; callbacks that return 0; directories named by the length of the key.
abbrev map_env : Env
map_env = record {
  Table = Map;
  empty = λ k. none;
  get = λ t k. t k;
  set = λ t k c. write t k (some c);
  delete = λ t k. write t k none;
  path = length;
  commit = λ es t k d. pos 0;
  send = λ es m. pos 0;
}

map_laws : EnvLaws map_env
map_laws = record {
  get_set = λ t k c. if_pos (keys_discrete k k) refl _ _;
  get_set_other = λ t k j c n. if_neg (keys_discrete j k) n _ _;
  get_delete = λ t k. if_pos (keys_discrete k k) refl _ _;
  get_delete_other = λ t k j n. if_neg (keys_discrete j k) n _ _;
}

-- A log whose largest ballot is 5 * 256.
abbrev log_five : Log
log_five = record { max_ballot = 1280; dirs = λ d. none; links = λ b. none }

abbrev names : List (List ℕ)
names = (97 ∷ []) ∷ (98 ∷ []) ∷ (99 ∷ []) ∷ []

abbrev node : ℕ → Ke map_env
node i = context_create map_env log_five names i

abbrev key : List ℕ
key = 107 ∷ []

abbrev hello : Msg
hello = record {
  peer = 97 ∷ [];
  ballot = 256;
  seq = 1;
  mtype = 1;
  ctype = 0;
  committed = 0;
  key = key;
  payload = 1 ∷ 2 ∷ [];
}

hello-IsMsg : IsMsg hello
hello-IsMsg = record {
  peer = ground arith;
  peer_fits = omega arith;
  ballot_fits = omega arith;
  seq_fits = omega arith;
  mtype_fits = omega arith;
  ctype_fits = omega arith;
  flag = omega arith;
  key_fits = omega arith;
  payload_fits = omega arith;
}

parse-build_message_example : parse_message (build_message hello) ≡ parsed hello
parse-build_message_example = parse-build_message hello hello-IsMsg

parse_message-ne-fault_example : parse_message (0 ∷ 2 ∷ 97 ∷ []) ≢ fault
parse_message-ne-fault_example = parse_message-ne-fault (0 ∷ 2 ∷ 97 ∷ [])

update_ballot-IsUpdated_example : IsUpdated 1 257 1280 (update_ballot 1 257 1280)
update_ballot-IsUpdated_example = update_ballot-IsUpdated 1 257 1280 (omega arith) (omega arith)

handle_accept-IsAccepted_example :
    let h = handle_accept (node 1) hello in
    ((h ≡ ignored (pos 0) (node 1)) × (c : Cmd) × (none ≡ some c) × (256 < c.ballot))
    ⊎ ((r : Msg) × (c : Cmd) × (h.response ≡ some r)
        × IsReplied (node 1) h.after key c
        × IsAccepted hello r none c (last_seq_for_key length log_five key).0)
unfolding context_create
handle_accept-IsAccepted_example = handle_accept-IsAccepted map_laws (node 1) hello

-- Commands of the leader in the two phases.
abbrev in_phase : Status → Cmd
in_phase s = with_place (new_cmd key) s 2 256

abbrev leader : Status → Ke map_env
leader s = record {
  log = log_five;
  commands = write (λ k. none) key (some (in_phase s));
  peers = names;
  num_peers = 3;
  my_index = 0;
  ballot = 256;
  events = [];
}

-- An answer with the sequence number 4.
abbrev answer : Msg
answer = record {
  peer = 98 ∷ [];
  ballot = 257;
  seq = 4;
  mtype = 4;
  ctype = 0;
  committed = 0;
  key = key;
  payload = [];
}

found : (s : Status) → write (λ k. none) key (some (in_phase s)) key ≡ some (in_phase s)
found s = if_pos (keys_discrete key key) refl _ _

handle_accept_response-quorum_example :
    let after = (handle_accept_response (leader accepted) answer).after in
    IsPending (leader accepted) after
    ⊎ ((c : Cmd) × ((leader accepted).commands key ≡ some c)
        × IsAgreed (leader accepted) answer c
        × IsDecided (leader accepted) after key (accept_vote c answer))
handle_accept_response-quorum_example =
    handle_accept_response-quorum map_laws (leader accepted) answer

short_path-commits_example :
    (r : Msg) × ((handle_preaccept
        (node 1)
        (message (leader pre_accepted) pre_accept_type 256 key 2 0)).response
      ≡ some r)
    × (last_seq_for_key length (handle_preaccept_response (leader pre_accepted) r).after.log key
        ≡ (2, 256))
unfolding context_create last_seq_for_key
short_path-commits_example =
    short_path-commits (leader pre_accepted) (node 1) (in_phase pre_accepted) (found pre_accepted)
      refl refl refl (omega arith) refl refl (omega arith)
