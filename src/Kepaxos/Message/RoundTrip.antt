-- ===== src/Kepaxos/Message/RoundTrip.antt =====
-- Messages of src/kepaxos.c come through: parsing what was built gives the message back.
use libgroupcache.Base.{
  ℕ, ◌+◌, ◌/◌, ◌%◌, ◌^◌, ◌<◌, ◌≤◌, ◌≡◌, ◌≢◌, refl, ◌∙◌, ap, true, some, List, [], ◌∷◌, ◌++◌, length,
  length-append, append_assoc, leb, ◌==◌, if◌then◌else◌, arith, All,
}
use libgroupcache.Base.Words.{u16_mod, u32_mod}
use libgroupcache.Base.Bytes.{
  be16, be32, read8, read16, read_bytes, read16-be16, read32-be32, read_bytes-append,
  read_bytes_all,
}
use libgroupcache.Kepaxos.Message.{
  Msg, msglen_min, c_string, put64, put_fields, build_message, parsed, join64, parse_tail,
  parse_words, parse_message,
}

-- A message that C can hold: a sender without null bytes, fields that fit their words.
pub record IsMsg (m : Msg) : Type 0 where
  pub peer : All (λ b. b ≢ 0) m.peer
  pub peer_fits : length m.peer + 1 < 2 ^ 16
  pub ballot_fits : m.ballot < 2 ^ 64
  pub seq_fits : m.seq < 2 ^ 64
  pub mtype_fits : m.mtype < 256
  pub ctype_fits : m.ctype < 256
  pub flag : m.committed ≤ 1
  pub key_fits : length m.key < 2 ^ 32
  pub payload_fits : length m.payload < 2 ^ 32

c_string-append : (s rest : List ℕ) → All (λ b. b ≢ 0) s → c_string (s ++ 0 ∷ rest) ≡ s
unfolding c_string
c_string-append [] rest h = refl
c_string-append (b ∷ s) rest h = ground (arith, c_string-append s rest h.1, h.0)

length-be32 : (n : ℕ) (rest : List ℕ) → length (be32 n ++ rest) ≡ 4 + length rest
unfolding be32
length-be32 n rest = omega arith

length-put64 : (n : ℕ) (rest : List ℕ) → length (put64 n rest) ≡ 8 + length rest
unfolding put64
length-put64 n rest = omega (
  arith,
  length-be32 (n / u32_mod % u32_mod) (be32 (n % u32_mod) ++ rest),
  length-be32 (n % u32_mod) rest,
)

length-put_fields : (m : Msg) → length (put_fields m) ≡ 11 + length m.key + length m.payload
unfolding put_fields
length-put_fields m = omega (
  arith,
  length-be32 (length m.key % u32_mod) (m.key ++ (be32 (length m.payload % u32_mod) ++ m.payload)),
  length-append m.key (be32 (length m.payload % u32_mod) ++ m.payload),
  length-be32 (length m.payload % u32_mod) m.payload,
)

-- The length that kepaxos_build_message reserves is the length that it writes.
pub length-build_message :
    (m : Msg)
    → length (build_message m) ≡ msglen_min + (length m.peer + 1) + length m.key + length m.payload
unfolding build_message be16
length-build_message m = omega (
  arith,
  length-append (m.peer ++ 0 ∷ []) (put64 m.ballot (put64 m.seq (put_fields m))),
  length-append m.peer (0 ∷ []),
  length-put64 m.ballot (put64 m.seq (put_fields m)),
  length-put64 m.seq (put_fields m),
  length-put_fields m,
)

parse_tail-put_fields :
    (m : Msg) (msglen expected : ℕ) (rest : List ℕ)
    → IsMsg m
    → expected + length m.key + length m.payload ≤ msglen
    → parse_tail msglen expected (m.peer ++ 0 ∷ rest) m.ballot m.seq (put_fields m) ≡ parsed m
unfolding parse_tail put_fields read8
parse_tail-put_fields m msglen expected rest i h =
    let k : length m.key % u32_mod ≡ length m.key = omega arith in
    let d : length m.payload % u32_mod ≡ length m.payload = omega arith in
    let types : (m.mtype % 256 ≡ m.mtype) × (m.ctype % 256 ≡ m.ctype) =
      (omega (arith, i.mtype_fits), omega (arith, i.ctype_fits)) in
    let fits1 : leb (expected + length m.key) msglen ≡ true = ground arith in
    let fits2 : leb (expected + length m.key + length m.payload) msglen ≡ true = ground arith in
    let flag : (if m.committed == 0 then 0 else 1) ≡ m.committed = ground arith in
    rw (k, d)
      (rw (read32-be32 (length m.key) _ i.key_fits) (
        rw fits1 (
          rw (read_bytes-append m.key _) (
            rw (read32-be32 (length m.payload) _ i.payload_fits) (
              rw fits2 (
                rw (
                  read_bytes_all m.payload,
                  c_string-append m.peer rest i.peer,
                  flag,
                  types.0,
                  types.1,
                )))))))

-- A 64-bit number is put together again from its words.
join64-split : (n : ℕ) → n < 2 ^ 64 → join64 (n / u32_mod % u32_mod) (n % u32_mod) ≡ n
join64-split n h = omega arith

parse_words-put64 :
    (m : Msg) (msglen expected : ℕ) (rest : List ℕ)
    → IsMsg m
    → expected + length m.key + length m.payload ≤ msglen
    → parse_words msglen expected (m.peer ++ 0 ∷ rest) (put64 m.ballot (put64 m.seq (put_fields m)))
      ≡ parsed m
unfolding parse_words put64
parse_words-put64 m msglen expected rest i h =
    rw (read32-be32 (m.ballot / u32_mod % u32_mod) _ (omega arith)) (
      rw (read32-be32 (m.ballot % u32_mod) _ (omega arith)) (
        rw (read32-be32 (m.seq / u32_mod % u32_mod) _ (omega arith)) (
          rw (read32-be32 (m.seq % u32_mod) _ (omega arith)) (
            rw (join64-split m.ballot i.ballot_fits, join64-split m.seq i.seq_fits)
              (parse_tail-put_fields m msglen expected rest i h)))))

-- The part up to the sender, on any buffer.
parse_message-sender :
    (msg peer sender p : List ℕ) (sender_len : ℕ)
    → leb msglen_min (length msg) ≡ true
    → read16 msg ≡ some (sender_len, peer)
    → leb (msglen_min + sender_len) (length msg) ≡ true
    → read_bytes sender_len peer ≡ some (sender, p)
    → parse_message msg ≡ parse_words (length msg) (msglen_min + sender_len) peer p
unfolding parse_message
parse_message-sender msg peer sender p sender_len a b c d = rw (a, b) (rw c (rw d))

-- kepaxos_parse_message of what kepaxos_build_message builds, for a sender without null bytes and
-- fields that fit their words, is the message: sender, ballot, sequence, types, flag, key and data.
pub parse-build_message : (m : Msg) → IsMsg m → parse_message (build_message m) ≡ parsed m
unfolding build_message
parse-build_message m i =
    let peer = m.peer ++ 0 ∷ [] in
    let words = put64 m.ballot (put64 m.seq (put_fields m)) in
    let n : (length m.peer + 1) % u16_mod ≡ length peer =
      omega (arith, length-append m.peer (0 ∷ []), i.peer_fits) in
    let len = length-build_message m in
    let sent : read16 (build_message m) ≡ some (length peer, peer ++ words) = rw n (
      read16-be16 (length peer) (peer ++ words)
        (omega (arith, length-append m.peer (0 ∷ []), i.peer_fits))) in
    parse_message-sender (build_message m) (peer ++ words) peer words (length peer)
      (ground (arith, len)) sent (ground (arith, len, length-append m.peer (0 ∷ [])))
      (read_bytes-append peer words)
    ∙ ap (λ t. parse_words (length (build_message m)) (msglen_min + length peer) t words)
        (append_assoc m.peer (0 ∷ []) words)
    ∙ parse_words-put64 m (length (build_message m)) (msglen_min + length peer) words i
        (omega (arith, len, length-append m.peer (0 ∷ [])))
