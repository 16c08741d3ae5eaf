-- ===== src/Messaging/Socket.antt =====
-- read_socket of src/connections.c, on a socket that blocks.
--
-- A socket has the bytes that its peer sends before it closes, and how the next reads go; the reads
-- after those get all that they ask for, if it is there.
use libgroupcache.Base.{ℕ, ◌+◌, Bool, true, false, List, [], ◌∷◌, take, drop}
use libgroupcache.Base.Words.{min_of}

-- How a read goes: `arrives n` has up to n + 1 bytes there, the others are EINTR, EAGAIN (the timeout
-- of the socket) and another error.
pub data ReadStep : Type 0 where
  arrives : ℕ → ReadStep
  interrupted : ReadStep
  times_out : ReadStep
  breaks : ReadStep

pub record Socket : Type 0 where
  pub bytes : List ℕ
  pub reads : List ReadStep

-- What read_socket returns: the bytes, none at the end of the stream, or -1 by errno.
pub data Got : Type 0 where
  got : List ℕ → Got
  timed_out : Got
  broken : Got

abbrev pub socket : List ℕ → List ReadStep → Socket
socket bytes reads = record { bytes = bytes; reads = reads }

-- The loop of read_socket
unfoldable pub read_steps : Bool → ℕ → List ℕ → List ReadStep → Got × Socket
read_steps ignore_timeout len bytes [] = (got (take len bytes), socket (drop len bytes) [])
read_steps ignore_timeout len bytes (arrives n ∷ reads) =
    let rb = min_of len (n + 1) in (got (take rb bytes), socket (drop rb bytes) reads)
read_steps ignore_timeout len bytes (interrupted ∷ reads) =
    read_steps ignore_timeout len bytes reads
read_steps true len bytes (times_out ∷ reads) = read_steps true len bytes reads
read_steps false len bytes (times_out ∷ reads) = (timed_out, socket bytes reads)
read_steps ignore_timeout len bytes (breaks ∷ reads) = (broken, socket bytes reads)

-- read_socket
abbrev pub read_socket : Bool → ℕ → Socket → Got × Socket
read_socket ignore_timeout len s = read_steps ignore_timeout len s.bytes s.reads
