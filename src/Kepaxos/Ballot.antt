-- ===== src/Kepaxos/Ballot.antt =====
-- Ballots of src/kepaxos.c: what update_ballot and kepaxos_context_create make of them.
use libgroupcache.Base.{ℕ, ◌+◌, ◌^◌, ◌<◌, ◌≤◌, ◌≡◌, arith, List}
use libgroupcache.Kepaxos.Log.{Log}
use libgroupcache.Kepaxos.State.{Env, ballot_value, ballot_node, update_ballot}
use libgroupcache.Kepaxos.Node.{context_create}

-- A node's own ballot after update_ballot.
pub record IsUpdated (my_index current ballot updated : ℕ) : Type 0 where
  pub monotone : current ≤ updated
  pub above : 1 ≤ ballot_value ballot → ballot_value ballot + 1 < 2 ^ 56 → ballot < updated
  pub mine : ballot_node current ≡ my_index → ballot_node updated ≡ my_index

-- update_ballot, for an index that is a byte and 64-bit ballots: the ballot does not decrease; it
-- is then above the one received, if that has a value other than 0 and other than the last, which
-- has no successor; and a ballot that carries the node's index carries it afterwards.
pub update_ballot-IsUpdated :
    (my_index current ballot : ℕ)
    → my_index < 256
    → ballot < 2 ^ 64
    → IsUpdated my_index current ballot (update_ballot my_index current ballot)
unfolding update_ballot
update_ballot-IsUpdated my_index current ballot i b = record {
  monotone = ground arith;
  above = λ one fits. ground arith;
  mine = λ m. ground arith;
}

-- kepaxos_context_create, over a log whose largest ballot is of a value from 2 to 2 ^ 56 - 2: the
-- ballot of the new context is of a smaller value.
pub context_create-behind :
    (E : Env) (log : Log) (peers : List (List ℕ)) (index : ℕ)
    → 2 ≤ ballot_value log.max_ballot
    → ballot_value log.max_ballot + 1 < 2 ^ 56
    → ballot_value ((context_create E log peers index).ballot) < ballot_value log.max_ballot
unfolding context_create update_ballot
context_create-behind E log peers index two fits = ground arith
