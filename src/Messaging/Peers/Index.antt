-- ===== src/Messaging/Peers/Index.antt =====
-- The index of a storage, as src/serving.c sends it and index_from_peer of src/messaging.c takes it.
use libgroupcache.Base.{
  ℕ, zero, suc, ◌+◌, ◌/◌, ◌%◌, ◌^◌, ◌≤◌, ◌<◌, ◌≡◌, refl, ap, ◌∙◌, true, false, Option, none, some,
  List, [], ◌∷◌, ◌++◌, length, length-append, All, arith, ltb, ◌==◌, if◌then◌else◌,
}
use libgroupcache.Base.Words.{u32_mod}
use libgroupcache.Base.Bytes.{be32, read32, read_bytes, read32-be32, read_bytes-append}
use libgroupcache.AsyncReader.{protocol_version}
use libgroupcache.Messaging.{build_message, hdr_check, hdr_get_index, hdr_index_response}
use libgroupcache.Messaging.Read.{record_max}
use libgroupcache.Messaging.Read.Records.{add_all, AllFit}
use libgroupcache.Messaging.Peers.{Conn, Answer, write_message, read_answer, is_answer, out_of}
use libgroupcache.Messaging.Peers.Status.{
  Expects, Answered, write_message-writable, read_answer-build_message, is_answer-same,
}

-- shardcache_storage_index_item_t
pub record IndexItem : Type 0 where
  pub key : List ℕ
  pub vlen : ℕ

-- The items in the buffer of the case SHC_HDR_GET_INDEX of process_request, and the size_t of 0 behind.
unfoldable pub index_bytes : List IndexItem → List ℕ
index_bytes [] = 0 ∷ 0 ∷ 0 ∷ 0 ∷ 0 ∷ 0 ∷ 0 ∷ 0 ∷ []
index_bytes (i ∷ items) = be32 (length i.key) ++ (i.key ++ (be32 i.vlen ++ index_bytes items))

-- The answer to it
abbrev pub index_response : List IndexItem → ℕ → List ℕ
index_response items version = build_message hdr_index_response (index_bytes items ∷ []) version

-- An item is added to what the loop comes to after it.
abbrev add_item : List ℕ → ℕ → Option (List IndexItem) → Option (List IndexItem)
add_item key vlen none = none
add_item key vlen (some items) = some (record { key = key; vlen = vlen } ∷ items)

-- The key of an item and the length of its value; none is a read past the end.
unfoldable pub take_item : ℕ → List ℕ → Option (List ℕ × ℕ × List ℕ)
take_item klen bytes = elim (read_bytes klen bytes) [
  | none ↦ none
  | some (key, bytes') ↦ elim (read32 bytes') [
    | none ↦ none
    | some (vlen, bytes'') ↦ some (key, vlen, bytes'')
  ]
]

-- The loop of index_from_peer, at the offset ofx of `len` bytes, of which the list has those that are left;
-- none is a read past their end. The sum of the test is of 32 bits.
unfoldable pub index_loop : ℕ → ℕ → ℕ → List ℕ → Option (List IndexItem)
index_loop zero ofx len bytes = some []
index_loop (suc rounds) ofx len [] = some []
index_loop (suc rounds) ofx len (b ∷ bytes) = elim (read32 (b ∷ bytes)) [
  | none ↦ none
  | some (klen, bytes1) ↦
      let next : Option (List IndexItem) = elim (take_item klen bytes1) [
        | none ↦ none
        | some (key, vlen, bytes2) ↦
            add_item key vlen (index_loop rounds (ofx + 4 + klen + 4) len bytes2)
      ] in
      if klen == 0 then some [] else if ltb len ((ofx + klen + 8) % u32_mod) then some [] else next
]

-- index_from_peer: the items, none where the loop reads past the end of the data.
unfoldable pub index_from_peer : Conn → Option (List IndexItem) × Conn
index_from_peer c =
    let (wrote, c') = write_message hdr_get_index [] c in
    let a = read_answer true (some [] ∷ []) c' in
    let bytes = out_of a.resp [] in
    let items =
      if is_answer hdr_index_response 1 a
      then index_loop (length bytes) 0 (length bytes) bytes
      else some [] in
    if wrote then (items, record c' { sock = a.left }) else (some [], c')

abbrev pub IsItem : IndexItem → Type 0
IsItem i = (1 ≤ length i.key) × (i.vlen < 2 ^ 32)

take_item-reads :
    (i : IndexItem) (rest : List ℕ)
    → i.vlen < 2 ^ 32
    → take_item (length i.key) (i.key ++ (be32 i.vlen ++ rest)) ≡ some (i.key, i.vlen, rest)
unfolding take_item
take_item-reads i rest h =
    rw (read_bytes-append i.key (be32 i.vlen ++ rest), take_item)
      (rw (read32-be32 i.vlen rest h) refl)

index_loop-item :
    (rounds ofx len b klen vlen : ℕ) (bytes bytes1 bytes2 key : List ℕ)
    → read32 (b ∷ bytes) ≡ some (klen, bytes1)
    → take_item klen bytes1 ≡ some (key, vlen, bytes2)
    → 1 ≤ klen
    → ofx + klen + 8 ≤ len
    → len < 2 ^ 32
    → index_loop (suc rounds) ofx len (b ∷ bytes)
      ≡ add_item key vlen (index_loop rounds (ofx + 4 + klen + 4) len bytes2)
unfolding index_loop
index_loop-item rounds ofx len b klen vlen bytes bytes1 bytes2 key e1 e2 one fits le =
    let full : (klen == 0) ≡ false = ground arith in
    let room : ltb len ((ofx + klen + 8) % u32_mod) ≡ false =
      let same : (ofx + klen + 8) % u32_mod ≡ ofx + klen + 8 = omega arith in
      rw same (ground arith) in
    rw (e1, index_loop) (rw full (rw room (rw e2 refl)))

index_loop-index_bytes :
    (items : List IndexItem) (rounds ofx len : ℕ)
    → All IsItem items
    → ofx + length (index_bytes items) ≡ len
    → length items + 1 ≤ rounds
    → len ≤ 2 ^ 28
    → index_loop rounds ofx len (index_bytes items) ≡ some items
unfolding index_loop index_bytes read32 be32
index_loop-index_bytes [] zero ofx len is whole enough le = absurd (omega arith)
index_loop-index_bytes (i ∷ items) zero ofx len is whole enough le = absurd (omega arith)
index_loop-index_bytes [] (suc rounds) ofx len is whole enough le = refl
index_loop-index_bytes (i ∷ items) (suc rounds) ofx len is whole enough le =
    let rest = be32 i.vlen ++ index_bytes items in
    let long = length-append i.key rest in
    let e1 = read32-be32 (length i.key) (i.key ++ rest) (omega (arith, long)) in
    let e2 = take_item-reads i (index_bytes items) is.0.1 in
    index_loop-item rounds ofx len (length i.key / 2 ^ 24 % 256) (length i.key) i.vlen
      (length i.key / 2 ^ 16 % 256
        ∷ length i.key / 2 ^ 8 % 256
        ∷ length i.key % 256
        ∷ (i.key ++ rest))
      (i.key ++ rest) (index_bytes items) i.key e1 e2 is.0.0 (omega (arith, long)) (omega arith)
    ∙ ap (add_item i.key i.vlen) (
        index_loop-index_bytes items rounds (ofx + 4 + length i.key + 4) len is.1
          (omega (arith, long)) (omega arith) le)

index_bytes_long : (items : List IndexItem) → length items + 8 ≤ length (index_bytes items)
unfolding index_bytes be32
index_bytes_long [] = omega arith
index_bytes_long (i ∷ items) =
    omega (arith, index_bytes_long items, length-append i.key (be32 i.vlen ++ index_bytes items))

known_index : hdr_check hdr_index_response ≡ true
unfolding hdr_check
known_index = refl

index-reads :
    (c c' : Conn) (a : Answer)
    → write_message hdr_get_index [] c ≡ (true, c')
    → read_answer true (some [] ∷ []) c' ≡ a
    → is_answer hdr_index_response 1 a ≡ true
    → ◌≡◌ {A = Option (List IndexItem) × Conn} (index_from_peer c) (
      index_loop (length (out_of a.resp [])) 0 (length (out_of a.resp [])) (out_of a.resp []),
      record c' { sock = a.left },
    )
unfolding index_from_peer
index-reads c c' a w e i = rw (w, index_from_peer) (rw e (rw i refl))

-- index_from_peer for a peer that answers with the items of its index, as process_request does for GET_INDEX, in
-- version 2, with more bytes behind the answer, on a connection that can be written to and whose reads
-- get four bytes if they are there. No key is empty, the lengths of the values are below 2^32, and
-- the items come to at most 2^28 bytes: the caller gets all items in order, no read passes the end of
-- the data, the request is sent, and only the answer is read.
pub index_from_peer-index_response :
    (items : List IndexItem) (c : Conn) (rest : List ℕ)
    → All IsItem items
    → length (index_bytes items) ≤ record_max
    → Expects c (index_response items 2) rest
    → (c' : Conn) × ◌≡◌ {A = Option (List IndexItem) × Conn} (index_from_peer c) (some items, c')
      × Answered c c' hdr_get_index [] rest
unfolding add_all AllFit
index_from_peer-index_response items c rest is fits x =
    let c' = record c { written = c.written ++ build_message hdr_get_index [] protocol_version } in
    let long = index_bytes_long items in
    let (left, e, l, s) =
      read_answer-build_message true hdr_index_response (index_bytes items) [] (some [] ∷ []) rest
        c' known_index (omega arith, fits, omega arith, tt) x.comes x.steady in
    let n = length (index_bytes items) in
    (
      record c' { sock = left },
      index-reads c c' _ (write_message-writable hdr_get_index [] c x.writes) e
            (is_answer-same hdr_index_response 1 _ left)
          ∙ ap {B = Option (List IndexItem) × Conn} (λ t. (t, record c' { sock = left }))
              (index_loop-index_bytes items n 0 n is (omega arith) (omega arith) fits),
      (refl, l, s),
    )
