-- ===== src/Pool.antt =====
-- The connections to peers in src/connections_pool.c: a queue of idle connections for each address.
pub mod Time
pub mod Books
pub mod Take
mod Tests
use libgroupcache.Base.{
  ℕ, zero, suc, ◌+◌, Bool, true, false, not, ◌&&◌, ◌||◌, Option, none, some, List, [], ◌∷◌, ◌++◌,
  length, ltb, ◌==◌, if◌then◌else◌, keys_discrete,
}
use mathlib.Core.Logic.{ite}
use libgroupcache.Node.State.{Outcome, stuck, done, ◌>>=◌}
use libgroupcache.Pool.Time.{TimeVal, is_time_valid}

-- struct _connection_pool_entry_s
pub record Entry : Type 0 where
  pub fd : ℕ
  pub last_access : TimeVal

-- What connect_to_peer gives: a connection, an error for want of file descriptors, or another error.
pub data Connected : Type 0 where
  connected : ℕ → Connected
  no_files : Connected
  refused : Connected

-- The hash table and the queues of libhl, and the system: whether a new queue can be stored, whether
-- an entry can be pushed, the flags of a connection (fcntl), a connection to a peer, of which `again`
-- says that it is the second try, and the time. They may depend on what was closed before.
pub record Sys : Type 0 where
  pub set_ok : List ℕ → Bool
  pub push_ok : List ℕ → ℕ → Bool
  pub has_flags : List ℕ → ℕ → Bool
  pub connect : List ℕ → List ℕ → Bool → Connected
  pub now : List ℕ → TimeVal

-- struct _connections_pool_s, its table in the order of its addresses; `closed` is the trace of the
-- connections that it closed, the latest first.
pub record Pool : Type 0 where
  pub table : List (List ℕ × List Entry)
  pub max_spare : ℕ
  pub check : Bool
  pub expire_time : ℕ
  pub closed : List ℕ

unfoldable pub queue_of : List ℕ → List (List ℕ × List Entry) → Option (List Entry)
queue_of addr [] = none
queue_of addr ((a, q) ∷ rest) = ite (keys_discrete a addr) (some q) (queue_of addr rest)

-- The queue of an address that is in the table, written back.
unfoldable pub set_queue :
    List ℕ → List Entry → List (List ℕ × List Entry) → List (List ℕ × List Entry)
set_queue addr q [] = []
set_queue addr q ((a, p) ∷ rest) =
    ite (keys_discrete a addr) ((a, q) ∷ rest) ((a, p) ∷ set_queue addr q rest)

-- The pool with a new queue, if there was none, and the queue.
unfoldable pub queue_or_new : Sys → Pool → List ℕ → Option (List Entry) → Option (Pool × List Entry)
queue_or_new S p addr (some q) = some (p, q)
queue_or_new S p addr none =
    if S.set_ok addr then some (record p { table = (addr, []) ∷ p.table }, []) else none

-- get_connection_queue
unfoldable pub get_connection_queue : Sys → Pool → List ℕ → Option (Pool × List Entry)
get_connection_queue S p addr = queue_or_new S p addr (queue_of addr p.table)

abbrev pub close_fd : ℕ → Pool → Pool
close_fd fd p = record p { closed = fd ∷ p.closed }

-- What select gives: -1, 1, or another number.
pub data Selected : Type 0 where
  select_failed : Selected
  select_ready : Selected
  select_timeout : Selected

-- write_noop: whether its loop goes on after a round, by what select gave, whether the error that select
-- or write met is EINTR or EAGAIN, and whether the time is over. A break leaves the switch only, so that
-- it is as good as a continue.
unfoldable pub noop_round : Selected → Bool → Bool → Bool
noop_round select_failed again late = if again then true else true
noop_round select_ready again late = if again then true else true
noop_round select_timeout again late = if late then true else true

-- The loop, for at most so many rounds: the round in which it ended, or none if it still runs.
unfoldable pub write_noop : (ℕ → Selected × Bool × Bool) → ℕ → ℕ → Option ℕ
write_noop rounds i zero = none
write_noop rounds i (suc n) =
    let (selected, again, late) = rounds i in
    let rest = write_noop rounds (i + 1) n in
    if noop_round selected again late then rest else some i

-- The loop of connections_pool_get over the entries of a queue: the connection, if there is one, the
-- entries that are left, and what was closed. A connection whose time is over waits for write_noop.
unfoldable pub take_entry :
    Sys → Pool → List Entry → List ℕ → Outcome (Option ℕ × List Entry × List ℕ)
take_entry S p [] closed = done (none, [], closed)
take_entry S p (e ∷ entries) closed =
    let rest = take_entry S p entries (e.fd ∷ closed) in
    if not (S.has_flags closed e.fd)
    then rest
    else if not p.check
    then done (some e.fd, entries, closed)
    else if is_time_valid p.expire_time (S.now closed) e.last_access
    then done (some e.fd, entries, closed)
    else stuck

-- connections_queue_empty
unfoldable pub queue_empty : List Entry → List ℕ → List ℕ
queue_empty [] closed = closed
queue_empty (e ∷ entries) closed = queue_empty entries (e.fd ∷ closed)

-- ht_foreach_value, of connections_queue_empty
unfoldable pub empty_all : List (List ℕ × List Entry) → List ℕ → List (List ℕ × List Entry) × List ℕ
empty_all [] closed = ([], closed)
empty_all ((a, q) ∷ rest) closed =
    let (rest', closed') = empty_all rest (queue_empty q closed) in ((a, []) ∷ rest', closed')

-- A new connection; where file descriptors ran out, after the idle ones are closed.
unfoldable pub connect_new : Sys → Pool → List ℕ → Connected → Pool × Option ℕ
connect_new S p addr (connected fd) = (p, some fd)
connect_new S p addr refused = (p, none)
connect_new S p addr no_files =
    let (table, closed) = empty_all p.table p.closed in
    (
      record p { table = table; closed = closed },
      elim (S.connect closed addr true) [
        | connected fd ↦ some fd
        | no_files ↦ none
        | refused ↦ none
      ],
    )

-- What connections_pool_get returns: the connection that it found in the queue, or a new one.
unfoldable pub found_or_new : Sys → Pool → List ℕ → Option ℕ → Pool × Option ℕ
found_or_new S p addr (some fd) = (p, some fd)
found_or_new S p addr none = connect_new S p addr (S.connect p.closed addr false)

-- connections_pool_get, with the queue of the address.
unfoldable pub get_from :
    Sys → Pool → List ℕ → Option (Pool × List Entry) → Outcome (Pool × Option ℕ)
get_from S p addr none = done (p, none)
get_from S p addr (some (b, q)) = do
  (found, left, closed) ← take_entry S b q b.closed
  done (
      found_or_new S (record b { table = set_queue addr left b.table; closed = closed }) addr found)

-- connections_pool_get; none for -1.
unfoldable pub pool_get : Sys → Pool → List ℕ → Outcome (Pool × Option ℕ)
pool_get S p addr = get_from S p addr (get_connection_queue S p addr)

-- connections_pool_add, with the queue of the address.
unfoldable pub add_to : Sys → Pool → List ℕ → ℕ → Option (Pool × List Entry) → Pool
add_to S p addr fd none = close_fd fd p
add_to S p addr fd (some (b, q)) =
    let entry : Entry = record { fd = fd; last_access = S.now b.closed } in
    if ltb (length q) b.max_spare
    then (if S.push_ok b.closed fd
        then record b { table = set_queue addr (q ++ entry ∷ []) b.table }
        else close_fd fd b)
    else close_fd fd b

-- connections_pool_add
unfoldable pub pool_add : Sys → Pool → List ℕ → ℕ → Pool
pool_add S p addr fd = add_to S p addr fd (get_connection_queue S p addr)
