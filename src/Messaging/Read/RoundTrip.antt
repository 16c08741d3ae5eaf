-- ===== src/Messaging/Read/RoundTrip.antt =====
-- Messages of build_message that read_message of src/messaging.c takes from a steady socket.
use libgroupcache.Base.{
  ℕ, suc, ◌+◌, ◌≤◌, ◌≡◌, refl, ◌∙◌, ap, Bool, true, false, Option, some, List, [], ◌∷◌, ◌++◌,
  length, length-append, append_assoc, arith, ◌==◌,
}
use libgroupcache.Base.Bytes.{be32}
use libgroupcache.Messaging.{hdr_check, build_message, record_bytes, more_records, records_bytes}
use libgroupcache.Messaging.Socket.{ReadStep, got, socket, Socket, read_steps}
use libgroupcache.Messaging.Read.{
  Reading, reading, received, rounds_for, records_loop, first_byte, first_or, magic_version, header,
  Reply, used_by, read_body, read_header, read_message,
}
use libgroupcache.Messaging.Read.Steady.{Steady, read_steps-whole}
use libgroupcache.Messaging.Read.Records.{
  outs_of, back_onto, add_all, AllFit, records_assoc, records_loop-records,
}

first_byte-reads :
    (it : Bool) (rounds n stale b : ℕ) (s s' : Socket)
    → rounds ≡ suc n
    → read_steps it 1 s.bytes s.reads ≡ (got (b ∷ []), s')
    → (b == 144) ≡ false
    → first_byte it rounds stale s ≡ (b, s')
unfolding first_byte first_or
first_byte-reads it rounds n stale b s s' m e f = rw m (rw (e, first_byte) (rw f refl))

count_rounds : (rs : List (List ℕ)) → length rs ≤ length (more_records 2 rs)
unfolding more_records
count_rounds [] = omega arith
count_rounds (r ∷ rs) =
    omega (arith, count_rounds rs, length-append (record_bytes 2 r) (more_records 2 rs))

enough_rounds :
    (r : List ℕ) (rs : List (List ℕ)) (rest : List ℕ) (reads : List ReadStep)
    → length rs + 1
      ≤ rounds_for (socket (be32 (length r) ++ (r ++ (more_records 2 rs ++ (0 ∷ rest)))) reads)
unfolding be32
enough_rounds r rs rest reads = omega (
  arith,
  count_rounds rs,
  length-append r (more_records 2 rs ++ (0 ∷ rest)),
  length-append (more_records 2 rs) (0 ∷ rest),
)

read_header-reads :
    (it : Bool) (v h : ℕ) (a : Reading) (s : Socket)
    → read_steps it 1 a.sock.bytes a.sock.reads ≡ (got (h ∷ []), s)
    → hdr_check h ≡ true
    → read_header it (some v) a ≡ record {
      ohdr = some h;
      outcome = records_loop it v (used_by a.out) (rounds_for s) (reading s a);
    }
unfolding read_header read_body header
read_header-reads it v h a s e f = rw (e, read_header) (rw (f, header) refl)

read_message-reads :
    (it : Bool) (stale : ℕ) (o : Option (List ℕ)) (outs : List (Option (List ℕ)))
    (s s' s'' : Socket) (a b c v : ℕ)
    → first_byte it (rounds_for s) stale s ≡ (a, s')
    → read_steps it 3 s'.bytes s'.reads ≡ (got (b ∷ c ∷ v ∷ []), s'')
    → read_message it stale (o ∷ outs) s
      ≡ read_header it
          (magic_version a (got (b ∷ c ∷ v ∷ [])))
          (record { sock = s''; before = []; out = o; after = outs })
unfolding read_message
read_message-reads it stale o outs s s' s'' a b c v e f = rw (e, read_message) (rw f refl)

magic_version_known : magic_version 115 (got (104 ∷ 99 ∷ 2 ∷ [])) ≡ some 2
unfolding magic_version
magic_version_known = refl

message_assoc :
    (r : List ℕ) (more rest : List ℕ)
    → 1 ≤ length r
    → ((record_bytes 2 r ++ more) ++ (0 ∷ [])) ++ rest
      ≡ be32 (length r) ++ (r ++ (more ++ (0 ∷ rest)))
message_assoc r more rest one =
    append_assoc (record_bytes 2 r ++ more) (0 ∷ []) rest ∙ records_assoc r more (0 ∷ rest) one

-- read_message on a message that build_message wrote in version 2, with more bytes behind it, where every
-- read gets four bytes if it asks for so many, the header is one of hdr_check, no record is empty,
-- and each has a place of its own in the array that it fits in: the number of the records is returned
-- with the header, every record stands behind what its place held, and the bytes behind the message
-- are left in the socket.
pub read_message-build_message :
    (it : Bool) (stale h : ℕ) (r : List ℕ) (rs : List (List ℕ)) (outs : List (Option (List ℕ)))
    (rest : List ℕ) (reads : List ReadStep)
    → hdr_check h ≡ true
    → AllFit (r ∷ rs) outs
    → Steady reads
    → (a : Reading) × (read_message it stale outs
          (socket (build_message h (r ∷ rs) 2 ++ rest) reads)
        ≡ record { ohdr = some h; outcome = received (length (r ∷ rs)) a })
      × (outs_of a ≡ add_all (r ∷ rs) outs)
      × (a.sock.bytes ≡ rest)
      × Steady a.sock.reads
unfolding AllFit build_message records_bytes back_onto
read_message-build_message it stale h r rs [] rest reads known fit st = absurd fit
read_message-build_message it stale h r rs (o ∷ outs) rest reads known fit st =
    let body = be32 (length r) ++ (r ++ (more_records 2 rs ++ (0 ∷ rest))) in
    let (r1, e1, s1, l1) =
      read_steps-whole it (115 ∷ []) (104 ∷ 99 ∷ 2 ∷ h ∷ body) reads (omega arith) st in
    let (r2, e2, s2, l2) = read_steps-whole it (104 ∷ 99 ∷ 2 ∷ []) (h ∷ body) r1 (omega arith) s1 in
    let (r3, e3, s3, l3) = read_steps-whole it (h ∷ []) body r2 (omega arith) s2 in
    let enough = enough_rounds r rs rest r3 in
    let (a, e, outs', left, s) =
      records_loop-records it (used_by o) (rounds_for (socket body r3)) r rs rest r3 [] o outs
        enough fit s3 in
    let number : 0 + length (r ∷ rs) ≡ length (r ∷ rs) = omega arith in
    let bytes : build_message h (r ∷ rs) 2 ++ rest ≡ 115 ∷ 104 ∷ 99 ∷ 2 ∷ h ∷ body =
      ap (λ t. 115 ∷ 104 ∷ 99 ∷ 2 ∷ h ∷ t) (message_assoc r (more_records 2 rs) rest fit.0) in
    let start =
      first_byte-reads it _ (length (104 ∷ 99 ∷ 2 ∷ h ∷ body) + length reads + 1) stale 115
        (socket (115 ∷ 104 ∷ 99 ∷ 2 ∷ h ∷ body) reads) _ (omega arith) e1 refl in
    let read =
      read_message-reads it stale o outs (socket (115 ∷ 104 ∷ 99 ∷ 2 ∷ h ∷ body) reads) _ _ 115 104
        99 2 start e2 in
    let headed =
      read_header-reads it 2 h
        (record { sock = socket (h ∷ body) r2; before = []; out = o; after = outs }) _ e3 known in
    (
      a,
      ap (λ t. read_message it stale (o ∷ outs) (socket t reads)) bytes
          ∙ read
          ∙ ap
              (λ t.
                read_header it t
                  (record { sock = socket (h ∷ body) r2; before = []; out = o; after = outs }))
              magic_version_known
          ∙ headed
          ∙ ap {B = Reply} (λ t. record { ohdr = some h; outcome = t })
              (e ∙ ap (λ n. received n a) number),
      outs',
      left,
      s,
    )
