-- ===== src/Kepaxos/Message.antt =====
-- kepaxos_build_message and kepaxos_parse_message of src/kepaxos.c. A buffer is the list of its
-- bytes, and a pointer into it is what follows the pointer.
pub mod RoundTrip
pub mod Bounds
use libgroupcache.Base.{
  ℕ, zero, suc, ◌+◌, ◌*◌, ◌/◌, ◌%◌, ◌^◌, Bool, true, false, Option, none, some, List, [], ◌∷◌, ◌++◌,
  length, leb, ◌==◌, if◌then◌else◌,
}
use libgroupcache.Base.Words.{u16_mod, u32_mod}
use libgroupcache.Base.Bytes.{be16, be32, read8, read16, read32, read_bytes}

-- kepaxos_msg_t. The sender is the C string at the pointer `peer`; klen and dlen are the lengths
-- of the key and the data.
pub record Msg : Type 0 where
  pub peer : List ℕ
  pub ballot : ℕ
  pub seq : ℕ
  pub mtype : ℕ
  pub ctype : ℕ
  pub committed : ℕ
  pub key : List ℕ
  pub payload : List ℕ

-- KEPAXOS_MSGLEN_MIN: three bytes, six 32-bit words and one of 16 bits.
abbrev pub msglen_min : ℕ
msglen_min = 29

-- The C string at a pointer: up to the first null byte.
unfoldable pub c_string : List ℕ → List ℕ
c_string [] = []
c_string (b ∷ bs) = if b == 0 then [] else b ∷ c_string bs

-- A 64-bit number goes as its high and its low word.
unfoldable pub put64 : ℕ → List ℕ → List ℕ
put64 n rest = be32 (n / u32_mod % u32_mod) ++ (be32 (n % u32_mod) ++ rest)

unfoldable pub put_fields : Msg → List ℕ
put_fields m =
    m.mtype % 256
    ∷ m.ctype % 256
    ∷ (if m.committed == 0 then 0 else 1)
    ∷ (be32 (length m.key % u32_mod) ++ (m.key ++ (be32 (length m.payload % u32_mod) ++ m.payload)))

-- The sender is a string without its null byte, which is sent too.
unfoldable pub build_message : Msg → List ℕ
build_message m =
    be16 ((length m.peer + 1) % u16_mod)
    ++ ((m.peer ++ 0 ∷ []) ++ put64 m.ballot (put64 m.seq (put_fields m)))

-- The result of parsing: -1, a message, or a read outside the buffer, which C does not define.
pub data Parsed : Type 0 where
  fault : Parsed
  rejected : Parsed
  parsed : Msg → Parsed

infixl 5 ◌>>=◌
abbrev pub ◌>>=◌ {ℓ} : {A : Type ℓ} → Option A → (A → Parsed) → Parsed
none >>= f = fault
some a >>= f = f a

abbrev pub expect : Bool → Parsed → Parsed
expect true rest = rest
expect false rest = rejected

-- The two words of a 64-bit number.
abbrev pub join64 : ℕ → ℕ → ℕ
join64 high low = high * u32_mod + low

-- From the three bytes on; `msglen` is the length of the whole buffer, `expected` that of what
-- is known of the message.
unfoldable pub parse_tail : ℕ → ℕ → List ℕ → ℕ → ℕ → List ℕ → Parsed
parse_tail msglen expected peer ballot seq p = do
  (mtype, p) ← read8 p
  (ctype, p) ← read8 p
  (committed, p) ← read8 p
  (klen, p) ← read32 p
  expect (leb (expected + klen) msglen) (do
    (key, p) ← read_bytes klen p
    (dlen, p) ← read32 p
    expect (leb (expected + klen + dlen) msglen) (do
      (payload, p) ← read_bytes dlen p
      parsed (record {
        peer = c_string peer;
        ballot = ballot;
        seq = seq;
        mtype = mtype;
        ctype = ctype;
        committed = committed;
        key = key;
        payload = payload;
      })))

-- The ballot and the sequence number.
unfoldable pub parse_words : ℕ → ℕ → List ℕ → List ℕ → Parsed
parse_words msglen expected peer p = do
  (ballot_high, p) ← read32 p
  (ballot_low, p) ← read32 p
  (seq_high, p) ← read32 p
  (seq_low, p) ← read32 p
  parse_tail msglen expected peer (join64 ballot_high ballot_low) (join64 seq_high seq_low) p

unfoldable pub parse_message : List ℕ → Parsed
parse_message msg = expect (leb msglen_min (length msg)) (do
  (sender_len, peer) ← read16 msg
  expect (leb (msglen_min + sender_len) (length msg)) (do
    (sender, p) ← read_bytes sender_len peer
    parse_words (length msg) (msglen_min + sender_len) peer p))
