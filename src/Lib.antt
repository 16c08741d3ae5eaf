-- ===== src/Lib.antt =====
-- A verification library for libgroupcache (libshardcache): the models of its parts, and what is
-- proved of them.
--
-- The program is a cache that is spread over the nodes of a network. Each node keeps values in an
-- adaptive replacement cache (src/arc.c), whose operations fetch what is missing from a peer or from a
-- storage. Replicas agree on writes by a variant of the egalitarian Paxos protocol (src/kepaxos.c),
-- one command for each key at a time, and record what was committed (src/kepaxos_log.c).
--
-- Base holds what the models share: tests on native numbers, lists, machine words (Base.Words) and
-- bytes in network order (Base.Bytes). A w-bit number is a native number with its wrap-around written
-- out as a remainder; an `int` result is a ℤ of its own.
--
-- Arc models src/arc.c.
--   Arc.State: struct _arc is Cache, arc_state_t is ArcState, arc_object_t is Object. A list is the
--     sequence of its objects, the most recent first. Objects are numbers, the table is a parameter,
--     and the calls of the reference counter are a trace.
--   Arc.Move: arc_move is `move`, in its two sections under the lock, `move_begin` and `move_end`, with
--     what the fetch returns between them. Arc.Move.Inv keeps the invariant.
--   Arc.Balance: arc_balance is `balance`, arc_set_size is `set_size`, arc_update_resource_size is
--     `update_resource_size`. The loops run on fuel, the number of listed objects: each round moves one
--     object to a ghost list or out of the cache, so that many rounds are enough.
--   Arc.Lookup: arc_lookup is `lookup`, arc_load is `load`, arc_remove is `remove`, with the other entry
--     points under their names without the prefix. arc_lookup calls itself again,
--     on fuel, where the key was stored in the meantime; a lookup that runs alone needs one call.
--   Arc.Invariant, Arc.Books: the lists against the objects, and the references that add up.
--   Arc.Threads: any number of threads, whose sections under the lock are the steps of a relation.
--   Arc.Create, Arc.Marker, Arc.Remove, Arc.Limits: a new cache, the marker p, removal, and the cases in
--     which the cache does not stay within its size.
--
-- Kepaxos models src/kepaxos.c and src/kepaxos_log.c.
--   Kepaxos.Message: kepaxos_build_message and kepaxos_parse_message, on lists of bytes. A read outside
--     the buffer is the result `fault`.
--   Kepaxos.Log: kepaxos_last_seq_for_key and kepaxos_set_last_seq_for_key.
--   Kepaxos.State: kepaxos_t is Ke, kepaxos_cmd_t is Cmd; update_ballot. What goes to the outside is a
--     trace of events.
--   Kepaxos.Replica, Kepaxos.Leader: the handlers of messages, each under its name without the prefix;
--     a handler gives its code, its response and the state after it.
--   Kepaxos.Node: kepaxos_received_command, kepaxos_received_response, kepaxos_recovered and
--     kepaxos_context_create.
--   Kepaxos.Ballot, Kepaxos.Books, Kepaxos.Promise, Kepaxos.Quorum, Kepaxos.Flow: what is proved of the
--     ballots, the log, the replies, the commits, and runs of them.
--
-- AsyncReader models src/async_reader.c, the parser of the records that arrive on a connection: a
--   context is Ctx, async_read_context_update is `update_ctx`, async_read_context_input_data is
--   `input_data`. A loop runs on fuel, one round for each byte in the buffer and one more, and its result
--   says whether it ended, wrote outside the array of a chunk, or was still running. A round of
--   version 1 that goes on takes a byte, so the fuel is enough; a round of version 2 need not.
--   AsyncReader.Loops: the ends of the loops. AsyncReader.Rounds, AsyncReader.Records: whole records and
--   messages. AsyncReader.Cuts: messages in pieces.
--
-- Messaging models src/messaging.c, on lists of bytes: build_message, the status byte and the headers.
--   Messaging.Socket: read_socket of src/connections.c. A socket has the bytes that its peer sends and a
--     finite list of how the next reads go; behind that list a read gets all that it asks for.
--   Messaging.Read: read_message. Its loops run on fuel, one round for each byte and each listed read
--     and one more; a round takes one of these, so that the fuel is enough (Messaging.Read.Takes,
--     Messaging.Read.Returns). Messaging.Read.Steady, Messaging.Read.Fill, Messaging.Read.Records and
--     Messaging.Read.RoundTrip: sockets whose reads get four bytes, and whole messages on them.
--   Messaging.Update: messages of build_message in the reader of AsyncReader.
--   Messaging.Peers: the commands to a peer, each under its name; a connection is what was written and a
--     socket for the answer. Messaging.Peers.Status, Messaging.Peers.Index: the answers, and the index.
--   Messaging.Array: array_to_record and record_to_array. The loops of _chunkize_buffer and of
--     index_from_peer run on as many rounds as there are bytes, and take bytes in each.
--
-- Serving models src/serving.c: a request is Request, and get_async_data_handler and write_status are
--   under their names. Serving.Get: the answer to a get, from the pieces that Fetch and Fetch.Window
--   tell. Serving.Status: a command and its answer, from the peer's function to the caller's result.
--   Serving.Decode with Serving.Decode.Commands: async_read_handler is `read_handler`, and the arguments
--     that process_request takes from SET, ADD and CAS are `set_args` and `cas_args`.
--   Serving.Order with Serving.Order.Changes and Serving.Order.Steps: the queue of pipelined requests of a
--     connection. A run is a sequence of events; shardcache_output_handler is the events `looks` and
--     `takes`, between which other threads may write.
--
-- Node models src/shardcache.c, with shardcache_node_select of src/shardcache_node.c.
--   Node.State: shardcache_t is Node, with the labels of its shards, its tables as maps, and the queue of
--     the expirer; volatile_object_t is VolatileObject. What a node does to its ARC cache, to the evictor
--     and to peers is a trace of actions. Host has what the node calls: the storage module, the
--     consistent hashing, the answers of peers.
--   Node.Ownership: shardcache_test_ownership_internal is `test_ownership`. The lock migration_lock is
--     modelled where a function takes it while it holds it: the result is `stuck`.
--   Node.Volatile: shardcache_store_volatile is `store_volatile`, shardcache_store is `store_value`.
--   Node.Commands: shardcache_set_internal, shardcache_del_internal and shardcache_exists, under their
--     names without the prefix. A callback is a flag: whether the caller gave one.
--   Node.Expiry: a round of shardcache_expire_keys over its queue is `run_jobs`; a timer that ends is
--     `expire_key_cb`. Timers end when a call says so, in any order.
--   Node.Migration: the thread is `migrate`, which recurses on the keys of the index.
--   Node.Reads: arc_ops_fetch of src/arc_ops.c, for a key of this node, is `fetch_mine`.
--   Node.View with Node.View.Sets and Node.View.Deletes, Node.Timers, Node.Locks, Node.Migration.Scanned,
--     Node.Migration.Safety and Node.Migration.Bounds: the map that readers see, the end of values, the
--     lock, and what a migration moves.
--
-- Description models src/shardcache_node.c: shardcache_node_create is `node_create`, whose strcat is
--   none where it would leave its buffer, and shardcache_node_create_from_string is `create_from_string`.
--   Description.Strings, Description.RoundTrip: the string of a node, written and read.
--
-- Pool models src/connections_pool.c: connections_pool_get is `pool_get`, connections_pool_add is
--   `pool_add`, on a table of queues. The loop over a queue is a recursion on it; write_noop is the result
--   `stuck` (Pool.Books). Sys has what the system and libhl answer. Pool.Books, Pool.Take: where the
--   connections are. Pool.Time: the time that a connection lasts.
--
-- Fetch models the callback of an asynchronous fetch in src/arc_ops.c:
--   arc_ops_fetch_from_peer_async_cb is `async_cb`, cached_object_t is CachedObject, a listener is a
--   number, and what listeners are told is a trace. Fetch.Stream: a value that arrives in pieces.
--   Fetch.Window: shardcache_get_async_helper of src/shardcache.c is `helper`, for the part of a value
--   that shardcache_get_offset asks for, by piece in Fetch.Window.Piece and as a whole in
--   Fetch.Window.Whole. Fetch.Takes: parts of lists.
--
-- Counters models src/counters.c: the tagged list is a list of names with pointers, and the memory a
--   function. The loop of shardcache_counter_value_set runs on the rounds given, and `loops` says that it
--   is not done. Counters.Values: all values, and one that is set.
--
-- Parameters: the hash table and the reference counter of libhl, with their documented laws as
-- hypotheses (HashLaws, EnvLaws); the storage module of a node, with its documented laws as hypotheses
-- (HostLaws), the consistent hashing and the answers of peers; the results of fetch, send, commit and
-- of the reader's callback; the name of a key's directory, which is made with siphash. The reader's
-- ring buffer is a list of bytes. Files of the log are taken to work. Whether a connection can be
-- written to, and how its reads go, are data of the model.
--
-- Not modelled: the payload of objects, arc_lookup_multi, arc_clear and arc_destroy; the expiry of
-- commands, waiting for a command, memory that is freed; of a node, the gets, increments, multi
-- commands, options, its creation, and what replicas do with a command; of messages, increments and the
-- event loop of read_message_async; of the server, the workers and the commands that only call the node;
-- the other parts of the program,
-- which are sockets, threads, storage and configuration around these.
pub mod Base
pub mod Arc
pub mod Kepaxos
pub mod AsyncReader
pub mod Messaging
pub mod Serving
pub mod Node
pub mod Description
pub mod Pool
pub mod Fetch
pub mod Counters
