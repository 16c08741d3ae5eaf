-- ===== src/Messaging/Array.antt =====
-- Lists of items in one record: array_to_record and record_to_array of src/messaging.c.
use libgroupcache.Base.{
  ℕ, zero, suc, ◌+◌, ◌*◌, ◌^◌, ◌<◌, ◌≤◌, ◌≡◌, refl, sym, ap, ◌∙◌, Bool, true, false, Option, none,
  some, List, [], ◌∷◌, ◌++◌, map, length, length-append, append_assoc, append-nil, arith, ltb,
  if◌then◌else◌, take-length, drop,
}
use libgroupcache.Base.Words.{min_of}
use libgroupcache.Base.Bytes.{be16, be32, read32, read_bytes, read32-be32, read_bytes-append}
use libgroupcache.Messaging.{chunk_max, chunkize, chunkize_buffer}

-- The bytes of an item, none for NULL.
abbrev pub item_bytes : Option (List ℕ) → List ℕ
item_bytes none = []
item_bytes (some x) = x

-- _dump_records
unfoldable pub dump_records : List (Option (List ℕ)) → List ℕ
dump_records [] = []
dump_records (i ∷ items) = be32 (length (item_bytes i)) ++ (item_bytes i ++ dump_records items)

-- The last chunk, and the end of the record.
unfoldable pub last_chunk : ℕ → Bool → ℕ → List (Option (List ℕ)) → List ℕ
last_chunk num_items count_wrote to_write pending =
    be16 to_write
    ++ ((if count_wrote then [] else be32 num_items) ++ (dump_records pending ++ be16 0))

-- A chunk that is flushed: sizeof(to_write) bytes are added of the two of its size, so that `stray`, two
-- bytes from behind them, is among them.
unfoldable pub flushed : List ℕ → ℕ → Bool → ℕ → List (Option (List ℕ)) → List ℕ
flushed stray num_items count_wrote to_write pending =
    be16 to_write
    ++ (stray ++ ((if count_wrote then [] else be32 num_items) ++ dump_records pending))

-- The loop of array_to_record, with the items that wait for their chunk.
unfoldable pub array_loop :
    List ℕ → ℕ → Bool → ℕ → List (Option (List ℕ)) → List (Option (List ℕ)) → List ℕ
array_loop stray num_items count_wrote to_write pending [] =
    last_chunk num_items count_wrote to_write pending
array_loop stray num_items count_wrote to_write pending (none ∷ items) =
    array_loop stray num_items count_wrote (to_write + 4) (pending ++ (none ∷ [])) items
array_loop stray num_items count_wrote to_write pending (some x ∷ items) =
    let stays =
      array_loop stray num_items count_wrote (to_write + (4 + length x)) (pending ++ (some x ∷ []))
        items in
    let next = array_loop stray num_items true (4 + length x) (some x ∷ []) items in
    if ltb 65535 (to_write + length x + 4)
    then flushed stray num_items count_wrote to_write pending ++ next
    else stays

-- array_to_record
unfoldable pub array_to_record : List ℕ → List (Option (List ℕ)) → List ℕ
array_to_record stray items = array_loop stray (length items) false 4 [] items

-- What record_to_array comes to: it returns -1, it reads past the end of the record, or it has the items.
pub data ToArray : Type 0 where
  too_short : ToArray
  past_end : ToArray
  array : List (List ℕ) → ToArray

abbrev item_then : List ℕ → ToArray → ToArray
item_then x (array xs) = array (x ∷ xs)
item_then x r = r

-- The loop of record_to_array, for the items that are left. An item of no bytes is left as it was in
-- memory; it is [] here.
unfoldable pub items_loop : ℕ → List ℕ → ToArray
items_loop zero bytes = array []
items_loop (suc n) bytes = elim (read32 bytes) [
  | none ↦ past_end
  | some (item_size, bytes1) ↦ elim (read_bytes item_size bytes1) [
    | none ↦ past_end
    | some (x, bytes2) ↦ item_then x (items_loop n bytes2)
  ]
]

-- record_to_array
unfoldable pub record_to_array : List ℕ → ToArray
record_to_array bytes = elim (read32 bytes) [
  | none ↦ too_short
  | some (num_items, rest) ↦ items_loop num_items rest
]

-- The record of an array, without the lengths of chunks.
abbrev pub array_bytes : List (Option (List ℕ)) → List ℕ
array_bytes items = be32 (length items) ++ dump_records items

dump_records-append :
    (xs ys : List (Option (List ℕ))) → dump_records (xs ++ ys) ≡ dump_records xs ++ dump_records ys
unfolding dump_records
dump_records-append [] ys = refl
dump_records-append (x ∷ xs) ys =
    ap (λ t. be32 (length (item_bytes x)) ++ (item_bytes x ++ t)) (dump_records-append xs ys)
    ∙ sym (
        append_assoc (be32 (length (item_bytes x))) (item_bytes x ++ dump_records xs)
          (dump_records ys)
        ∙ ap (λ t. be32 (length (item_bytes x)) ++ t)
            (append_assoc (item_bytes x) (dump_records xs) (dump_records ys)))

dump_records-length :
    (x : Option (List ℕ)) (xs : List (Option (List ℕ)))
    → length (dump_records (x ∷ xs)) ≡ 4 + length (item_bytes x) + length (dump_records xs)
unfolding dump_records be32
dump_records-length x xs = omega (arith, length-append (item_bytes x) (dump_records xs))

no_more : (n : ℕ) → n + length (dump_records []) ≡ n
unfolding dump_records
no_more n = omega arith

moved :
    (n i j : ℕ) (xs : List (Option (List ℕ))) (y : Option (List ℕ)) (ys : List (Option (List ℕ)))
    → i ≡ j
    → last_chunk n false i ((xs ++ (y ∷ [])) ++ ys) ≡ last_chunk n false j (xs ++ (y ∷ ys))
moved n i j xs y ys e =
    ap (λ t. last_chunk n false t ((xs ++ (y ∷ [])) ++ ys)) e
    ∙ ap (last_chunk n false j) (append_assoc xs (y ∷ []) ys)

-- Items that all fit in the chunk
array_loop-fits :
    (stray : List ℕ) (n to_write : ℕ) (pending items : List (Option (List ℕ)))
    → to_write + length (dump_records items) ≤ chunk_max
    → array_loop stray n false to_write pending items
      ≡ last_chunk n false (to_write + length (dump_records items)) (pending ++ items)
unfolding array_loop
array_loop-fits stray n to_write pending [] le = sym (
    ap (λ t. last_chunk n false t (pending ++ [])) (no_more to_write)
    ∙ ap (last_chunk n false to_write) (append-nil pending))
array_loop-fits stray n to_write pending (none ∷ items) le =
    let long = dump_records-length none items in
    array_loop-fits stray n (to_write + 4) (pending ++ (none ∷ [])) items (omega (arith, long))
    ∙ moved n _ _ pending none items (omega (arith, long))
array_loop-fits stray n to_write pending (some x ∷ items) le =
    let long = dump_records-length (some x) items in
    let room : ltb 65535 (to_write + length x + 4) ≡ false = ground (arith, long) in
    rw room (
      array_loop-fits stray n (to_write + (4 + length x)) (pending ++ (some x ∷ [])) items
        (omega (arith, long))
      ∙ moved n _ _ pending (some x) items (omega (arith, long)))

items_loop-dump_records :
    (items : List (Option (List ℕ)))
    → length (dump_records items) ≤ chunk_max
    → items_loop (length items) (dump_records items) ≡ array (map item_bytes items)
unfolding items_loop dump_records
items_loop-dump_records [] le = refl
items_loop-dump_records (i ∷ items) le =
    let long = dump_records-length i items in
    let e1 =
      read32-be32 (length (item_bytes i)) (item_bytes i ++ dump_records items)
        (omega (arith, long)) in
    let e2 = read_bytes-append (item_bytes i) (dump_records items) in
    rw (e1, items_loop)
      (rw e2 (ap (item_then (item_bytes i)) (items_loop-dump_records items (omega (arith, long)))))

record_to_array-array_bytes :
    (items : List (Option (List ℕ)))
    → length items < 2 ^ 32
    → length (dump_records items) ≤ chunk_max
    → record_to_array (array_bytes items) ≡ array (map item_bytes items)
unfolding record_to_array
record_to_array-array_bytes items few le =
    rw (read32-be32 (length items) (dump_records items) few, record_to_array)
      (items_loop-dump_records items le)

items_few : (items : List (Option (List ℕ))) → 4 * length items ≤ length (dump_records items)
items_few [] = omega arith
items_few (i ∷ items) = omega (arith, dump_records-length i items, items_few items)

drop-length : (xs : List ℕ) → drop (length xs) xs ≡ []
drop-length [] = refl
drop-length (x ∷ xs) = drop-length xs

chunkize-single :
    (rounds n : ℕ) (bytes : List ℕ)
    → rounds ≡ suc n
    → length bytes ≤ chunk_max
    → chunkize rounds bytes ≡ be16 (length bytes) ++ (bytes ++ be16 0)
unfolding chunkize
chunkize-single rounds n bytes e le =
    let all : min_of chunk_max (length bytes) ≡ length bytes = ground arith in
    rw e (rw (all, chunkize) (rw (take-length bytes) (rw (drop-length bytes) refl)))

array_bytes_long :
    (items : List (Option (List ℕ))) → length (array_bytes items) ≡ 4 + length (dump_records items)
unfolding be32
array_bytes_long items = omega arith

-- Items that come with their lengths to at most 65535 bytes, four for their number included: array_to_record writes
-- the one chunk, with its length and the end, that _chunkize_buffer makes of the record of the array, and
-- record_to_array gives all items of that record, without bytes for a NULL.
pub array_to_record-record_to_array :
    (stray : List ℕ) (items : List (Option (List ℕ)))
    → length (array_bytes items) ≤ chunk_max
    → (array_to_record stray items ≡ chunkize_buffer (array_bytes items))
      × (record_to_array (array_bytes items) ≡ array (map item_bytes items))
unfolding array_to_record last_chunk
array_to_record-record_to_array stray items le =
    let long = array_bytes_long items in
    let few = items_few items in
    let bytes = array_bytes items in
    (
      array_loop-fits stray (length items) 4 [] items (omega (arith, long))
          ∙ ap (λ n. be16 n ++ (be32 (length items) ++ (dump_records items ++ be16 0))) (sym long)
          ∙ ap (λ t. be16 (length bytes) ++ t)
              (sym (append_assoc (be32 (length items)) (dump_records items) (be16 0)))
          ∙ sym (chunkize-single (length bytes + 1) (length bytes) bytes (omega arith) le),
      record_to_array-array_bytes items (omega (arith, few, long)) (omega (arith, long)),
    )
