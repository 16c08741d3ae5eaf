-- ===== src/Serving/Decode/Commands.antt =====
-- Commands that src/messaging.c sends, as src/serving.c takes them.
use libgroupcache.Base.{
  ℕ, zero, suc, ◌+◌, ◌*◌, ◌/◌, ◌%◌, ◌^◌, ◌<◌, ◌≡◌, ◌≢◌, refl, ap, ◌∙◌, Bool, true, false, some,
  List, [], ◌∷◌, ◌++◌, append-nil, All, arith, ◌==◌, if◌then◌else◌, if_both,
}
use libgroupcache.Base.Bytes.{be32}
use libgroupcache.AsyncReader.{Ctx, Call, reading_done, ended, update_ctx, new_ctx}
use libgroupcache.AsyncReader.Records.{IsRecord, calls_for, end_call}
use libgroupcache.AsyncReader.Rounds.{part_call}
use libgroupcache.Messaging.{build_message, hdr_set, hdr_add, hdr_cas}
use libgroupcache.Messaging.Peers.{
  SendMode, mode_set, mode_add, mode_cas, hdr_of, send_records, time_record,
}
use libgroupcache.Messaging.Update.{update_ctx-build_message}
use libgroupcache.Serving.Decode.{
  no_records, add_at, read_handler, handler_answers, records_after, read_word, time_from, SetArgs,
  set_args, cas_args,
}

-- The records of a message in their buffers, from the one with a number on.
unfoldable pub placed : ℕ → List (List ℕ) → List (List ℕ) → List (List ℕ)
placed i [] records = records
placed i (x ∷ xs) records = placed (i + 1) xs (add_at i x records)

add_at-nothing : (i : ℕ) (records : List (List ℕ)) → add_at i [] records ≡ records
unfolding add_at
add_at-nothing i [] = refl
add_at-nothing zero (x ∷ xs) = ap (λ t. t ∷ xs) (append-nil x)
add_at-nothing (suc i) (x ∷ xs) = ap (◌∷◌ x) (add_at-nothing i xs)

records_after-calls_for :
    (calls : List Call) (i : ℕ) (x : List ℕ) (ys : List (List ℕ))
    → records_after (calls_for calls i x ys) ≡ placed i (x ∷ ys) (records_after calls)
unfolding records_after calls_for placed read_handler
records_after-calls_for calls i x [] = refl
records_after-calls_for calls i x (y ∷ ys) =
    records_after-calls_for (end_call i x ∷ part_call i x ∷ calls) (i + 1) y ys
    ∙ ap (placed (i + 1) (y ∷ ys)) (add_at-nothing i (add_at i x (records_after calls)))

-- The records of a connection after a message that build_message wrote in version 2.
pub records_after-build_message :
    (h : ℕ) (x : List ℕ) (ys : List (List ℕ))
    → IsRecord x
    → All IsRecord ys
    → (b : Ctx) × (update_ctx handler_answers (record new_ctx { buf = build_message h (x ∷ ys) 2 })
        ≡ ended b)
      × (b.state ≡ reading_done)
      × (b.hdr ≡ h)
      × (records_after b.calls ≡ placed 0 (x ∷ ys) no_records)
unfolding records_after read_handler
records_after-build_message h x ys i is =
    let (b, e, d, h', u, cs) = update_ctx-build_message handler_answers h x ys (λ cs c p. p) i is in
    (b, e, d, h', ap records_after cs ∙ records_after-calls_for [] 0 x ys)

-- What arrives of the times that are sent.
abbrev pub expire_got : ℕ → ℕ → ℕ
expire_got ttl cttl = if ttl == 0 then cttl else ttl

abbrev pub cexpire_got : ℕ → ℕ → ℕ
cexpire_got ttl cttl = if ttl == 0 then 0 else if cttl == 0 then 0 else ttl

read_word-be32 : (n : ℕ) → n < 2 ^ 32 → read_word (be32 n) ≡ some n
unfolding read_word be32
read_word-be32 n h =
    let e : n / 2 ^ 24 % 256 * 2 ^ 24
          + n / 2 ^ 16 % 256 * 2 ^ 16
          + n / 2 ^ 8 % 256 * 2 ^ 8
          + n % 256
        ≡ n =
      omega arith in
    ap some e

time_record-IsRecord : (ttl : ℕ) → All IsRecord (time_record ttl)
unfolding be32
time_record-IsRecord ttl = if_both (All IsRecord) (ttl == 0) _ _ tt ((omega arith, omega arith), tt)

-- What a list of times is, by whether each of the two is 0.
abbrev times : Bool → Bool → ℕ → ℕ → List (List ℕ)
times t c ttl cttl = (if t then [] else be32 ttl ∷ []) ++ (if c then [] else be32 cttl ∷ [])

abbrev pub set_call : List ℕ → List ℕ → ℕ → ℕ → SetArgs
set_call key value expire cexpire = record {
  key = key;
  value = value;
  expire = some expire;
  cexpire = some cexpire;
}

set_args-times :
    (t c : Bool) (key value : List ℕ) (ttl cttl : ℕ)
    → ttl < 2 ^ 32
    → cttl < 2 ^ 32
    → set_args (placed 0 (key ∷ value ∷ times t c ttl cttl) no_records)
      ≡ set_call key value
          (if t then (if c then 0 else cttl) else ttl)
          (if t then 0 else if c then 0 else ttl)
unfolding set_args placed add_at time_from read_word be32
set_args-times true true key value ttl cttl h h' = refl
set_args-times true false key value ttl cttl h h' =
    ap {B = SetArgs} (λ n. record { key = key; value = value; expire = n; cexpire = some 0 })
      (read_word-be32 cttl h')
set_args-times false true key value ttl cttl h h' =
    ap {B = SetArgs} (λ n. record { key = key; value = value; expire = n; cexpire = some 0 })
      (read_word-be32 ttl h)
set_args-times false false key value ttl cttl h h' =
    ap {B = SetArgs} (λ n. record { key = key; value = value; expire = n; cexpire = n })
      (read_word-be32 ttl h)

expire_got_as :
    (ttl cttl : ℕ)
    → (if ttl == 0 then (if cttl == 0 then 0 else cttl) else ttl) ≡ expire_got ttl cttl
expire_got_as ttl cttl = ground arith

All-append : (P : List ℕ → Type 0) (xs ys : List (List ℕ)) → All P xs → All P ys → All P (xs ++ ys)
All-append P [] ys p q = q
All-append P (x ∷ xs) ys p q = (p.0, All-append P xs ys p.1 q)

set_args-sent :
    (hdr : ℕ) (key value : List ℕ) (ttl cttl : ℕ)
    → IsRecord key
    → IsRecord value
    → ttl < 2 ^ 32
    → cttl < 2 ^ 32
    → (b : Ctx) × (update_ctx handler_answers (record new_ctx {
      buf = build_message hdr (key ∷ value ∷ (time_record ttl ++ time_record cttl)) 2;
    })
        ≡ ended b)
      × (b.state ≡ reading_done)
      × (b.hdr ≡ hdr)
      × (set_args (records_after b.calls)
          ≡ set_call key value (expire_got ttl cttl) (cexpire_got ttl cttl))
set_args-sent hdr key value ttl cttl k v h h' =
    let are_records =
      All-append IsRecord (time_record ttl) (time_record cttl) (time_record-IsRecord ttl)
        (time_record-IsRecord cttl) in
    let (b, e, d, same, after) =
      records_after-build_message hdr key (value ∷ (time_record ttl ++ time_record cttl)) k
        (v, are_records) in
    (
      b,
      e,
      d,
      same,
      ap set_args after
          ∙ set_args-times (ttl == 0) (cttl == 0) key value ttl cttl h h'
          ∙ ap (λ n. set_call key value n (cexpire_got ttl cttl)) (expire_got_as ttl cttl),
    )

-- A SET or ADD command as send_to_peer or add_to_peer writes it, of a key and a value of 1 to 65535 bytes, read as a
-- whole message by the handler of a connection: the message is done with its header, and process_request
-- gives shardcache_set the key and the value, the ttl as the time to expire, or the cttl if the ttl is 0, and as the
-- time in the cache the ttl again if both are not 0, and else 0.
pub set_args-send_records :
    (mode : SendMode) (key value : List ℕ) (ttl cttl : ℕ)
    → mode ≢ mode_cas
    → IsRecord key
    → IsRecord value
    → ttl < 2 ^ 32
    → cttl < 2 ^ 32
    → (b : Ctx) × (update_ctx handler_answers (record new_ctx {
      buf = build_message (hdr_of mode) (send_records mode key value [] ttl cttl) 2;
    })
        ≡ ended b)
      × (b.state ≡ reading_done)
      × (b.hdr ≡ hdr_of mode)
      × (set_args (records_after b.calls)
          ≡ set_call key value (expire_got ttl cttl) (cexpire_got ttl cttl))
unfolding send_records
set_args-send_records mode_cas key value ttl cttl no_cas k v h h' = absurd (no_cas refl)
set_args-send_records mode_set key value ttl cttl no_cas k v h h' =
    set_args-sent hdr_set key value ttl cttl k v h h'
set_args-send_records mode_add key value ttl cttl no_cas k v h h' =
    set_args-sent hdr_add key value ttl cttl k v h h'

first_three :
    (key old new : List ℕ) (t c : Bool) (ttl cttl : ℕ)
    → let a = cas_args (placed 0 (key ∷ old ∷ new ∷ times t c ttl cttl) no_records) in
      (a.key ≡ key) × (a.old_value ≡ old) × (a.new_value ≡ new)
unfolding cas_args placed add_at
first_three key old new true true ttl cttl = (refl, refl, refl)
first_three key old new true false ttl cttl = (refl, refl, refl)
first_three key old new false true ttl cttl = (refl, refl, refl)
first_three key old new false false ttl cttl = (refl, refl, refl)

-- A CAS command as cas_on_peer writes it, of a key and two values of 1 to 65535 bytes, read as a whole message by
-- the handler of a connection: the message is done with its header, and process_request gives
-- shardcache_cas the key and the two values as they were sent.
pub cas_args-send_records :
    (key old new : List ℕ) (ttl cttl : ℕ)
    → IsRecord key
    → IsRecord old
    → IsRecord new
    → (b : Ctx) × (update_ctx handler_answers (record new_ctx {
      buf = build_message hdr_cas (send_records mode_cas key old new ttl cttl) 2;
    })
        ≡ ended b)
      × (b.state ≡ reading_done)
      × ((cas_args (records_after b.calls)).key ≡ key)
      × ((cas_args (records_after b.calls)).old_value ≡ old)
      × ((cas_args (records_after b.calls)).new_value ≡ new)
unfolding send_records
cas_args-send_records key old new ttl cttl k o n =
    let are_records =
      All-append IsRecord (time_record ttl) (time_record cttl) (time_record-IsRecord ttl)
        (time_record-IsRecord cttl) in
    let (b, e, d, same, after) =
      records_after-build_message hdr_cas key (old ∷ new ∷ (time_record ttl ++ time_record cttl)) k
        (o, (n, are_records)) in
    let (is_key, is_old, is_new) = first_three key old new (ttl == 0) (cttl == 0) ttl cttl in
    (
      b,
      e,
      d,
      ap (λ t. (cas_args t).key) after ∙ is_key,
      ap (λ t. (cas_args t).old_value) after ∙ is_old,
      ap (λ t. (cas_args t).new_value) after ∙ is_new,
    )
