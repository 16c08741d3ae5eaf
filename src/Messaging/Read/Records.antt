-- ===== src/Messaging/Read/Records.antt =====
-- The records of a message on a steady socket, in the loop of read_message of src/messaging.c.
use libgroupcache.Base.{
  ℕ, zero, suc, ◌+◌, ◌*◌, ◌/◌, ◌%◌, ◌^◌, ◌≤◌, ◌<◌, ◌≡◌, refl, ◌∙◌, ap, Bool, false, Option, List,
  [], ◌∷◌, ◌++◌, length, length-append, append_assoc, arith, leb, ◌==◌,
}
use libgroupcache.Base.Bytes.{be32}
use libgroupcache.AsyncReader.{record_separator}
use libgroupcache.Messaging.{record_bytes, more_records}
use libgroupcache.Messaging.Socket.{ReadStep, got, socket, Socket, read_steps}
use libgroupcache.Messaging.Read.{
  Reading, reading, append_to, record_max, goes_on, stops, Outcome, received, fill, rounds_for,
  next_record, separate, v2_record, then_separator, round, records_loop,
}
use libgroupcache.Messaging.Read.Steady.{Steady, read_steps-whole}
use libgroupcache.Messaging.Read.Fill.{stands, HasRoom, fill-steady}

-- The array of the records, in order.
unfoldable pub back_onto : List (Option (List ℕ)) → List (Option (List ℕ)) → List (Option (List ℕ))
back_onto [] os = os
back_onto (b ∷ bs) os = back_onto bs (b ∷ os)

abbrev pub outs_of : Reading → List (Option (List ℕ))
outs_of a = back_onto a.before (a.out ∷ a.after)

-- Every record behind what its place holds.
unfoldable pub add_all : List (List ℕ) → List (Option (List ℕ)) → List (Option (List ℕ))
add_all [] os = os
add_all (r ∷ rs) [] = []
add_all (r ∷ rs) (o ∷ os) = append_to r o ∷ add_all rs os

-- There is a place for every record; none is empty, and each has room in its place.
unfoldable pub AllFit : List (List ℕ) → List (Option (List ℕ)) → Type 0
AllFit [] os = Unit
AllFit (r ∷ rs) [] = ⊥
AllFit (r ∷ rs) (o ∷ os) =
    (1 ≤ length r) × (length r ≤ record_max) × HasRoom (length r) o × AllFit rs os

be32-word :
    (n : ℕ)
    → n < 2 ^ 32
    → n / 2 ^ 24 % 256 * 2 ^ 24 + n / 2 ^ 16 % 256 * 2 ^ 16 + n / 2 ^ 8 % 256 * 2 ^ 8 + n % 256 ≡ n
be32-word n h = omega arith

v2_record-be32 :
    (it : Bool) (n0 n : ℕ) (a : Reading)
    → n < 2 ^ 31
    → v2_record it n0 (got (be32 n)) a ≡ then_separator it n0 (fill it n0 (rounds_for a.sock) n a)
unfolding v2_record be32
v2_record-be32 it n0 n a h =
    let word = be32-word n (omega arith) in
    let positive : leb (2 ^ 31) n ≡ false = ground arith in rw word (rw positive refl)

round-reads :
    (it : Bool) (n0 : ℕ) (a : Reading) (bs : List ℕ) (s : Socket)
    → read_steps it 4 a.sock.bytes a.sock.reads ≡ (got bs, s)
    → round it 2 n0 a ≡ v2_record it n0 (got bs) (reading s a)
unfolding round
round-reads it n0 a bs s e = rw (e, round) refl

then_separator-reads :
    (it : Bool) (n0 c : ℕ) (a : Reading) (s : Socket)
    → read_steps it 1 a.sock.bytes a.sock.reads ≡ (got (c ∷ []), s)
    → then_separator it n0 (goes_on a) ≡ separate n0 (got (c ∷ [])) (reading s a)
then_separator-reads it n0 c a s e = rw e refl

-- A round on a record and the byte behind it.
round-record :
    (it : Bool) (n0 c : ℕ) (r rest : List ℕ) (reads : List ReadStep)
    (before : List (Option (List ℕ))) (o : Option (List ℕ)) (after : List (Option (List ℕ)))
    → length r ≤ record_max
    → HasRoom (length r) o
    → Steady reads
    → (reads' : List ReadStep) × (round it 2 n0
          (stands (be32 (length r) ++ (r ++ (c ∷ rest))) reads before o after)
        ≡ separate n0 (got (c ∷ [])) (stands rest reads' before (append_to r o) after))
      × Steady reads'
unfolding be32
round-record it n0 c r rest reads before o after max room st =
    let (r1, e1, s1, l1) =
      read_steps-whole it (be32 (length r)) (r ++ (c ∷ rest)) reads (omega arith) st in
    let a1 = stands (r ++ (c ∷ rest)) r1 before o after in
    let long = length-append r (c ∷ rest) in
    let (r2, e2, s2) =
      fill-steady it n0 (rounds_for a1.sock) r (c ∷ rest) r1 before o after (omega arith) room s1 in
    let (r3, e3, s3, l3) = read_steps-whole it (c ∷ []) rest r2 (omega arith) s2 in
    let first =
      round-reads it n0 (stands (be32 (length r) ++ (r ++ (c ∷ rest))) reads before o after)
        (be32 (length r)) (socket (r ++ (c ∷ rest)) r1) e1 in
    (
      r3,
      first
          ∙ v2_record-be32 it n0 (length r) a1 (omega arith)
          ∙ ap (then_separator it n0) e2
          ∙ then_separator-reads it n0 c (stands (c ∷ rest) r2 before (append_to r o) after)
              (socket rest r3) e3,
      s3,
    )

separate-record_separator :
    (n0 : ℕ) (s : Socket) (before : List (Option (List ℕ))) (x o : Option (List ℕ))
    (after : List (Option (List ℕ)))
    → separate n0
        (got (record_separator ∷ []))
        (record { sock = s; before = before; out = x; after = o ∷ after })
      ≡ goes_on (record { sock = s; before = x ∷ before; out = o; after = after })
unfolding separate next_record
separate-record_separator n0 s before x o after = refl

separate_end :
    (n0 : ℕ) (a : Reading) → separate n0 (got (0 ∷ [])) a ≡ stops (received (length a.before + 1) a)
unfolding separate
separate_end n0 a = refl

records_loop-step :
    (it : Bool) (n0 rounds : ℕ) (a b : Reading)
    → round it 2 n0 a ≡ goes_on b
    → records_loop it 2 n0 (suc rounds) a ≡ records_loop it 2 n0 rounds b
unfolding records_loop
records_loop-step it n0 rounds a b e = rw (e, records_loop) refl

records_loop-stops :
    (it : Bool) (n0 rounds : ℕ) (a : Reading) (r : Outcome)
    → round it 2 n0 a ≡ stops r
    → records_loop it 2 n0 (suc rounds) a ≡ r
unfolding records_loop
records_loop-stops it n0 rounds a r e = rw (e, records_loop) refl

pub record_bytes-full : (r : List ℕ) → 1 ≤ length r → record_bytes 2 r ≡ be32 (length r) ++ r
unfolding record_bytes
record_bytes-full r one = let full : (length r == 0) ≡ false = ground arith in rw full refl

pub records_assoc :
    (r more rest : List ℕ)
    → 1 ≤ length r
    → (record_bytes 2 r ++ more) ++ rest ≡ be32 (length r) ++ (r ++ (more ++ rest))
unfolding be32
records_assoc r more rest one = rw (record_bytes-full r one) (
    append_assoc (be32 (length r) ++ r) more rest ∙ append_assoc (be32 (length r)) r (more ++ rest))

-- The records from the current one on.
pub records_loop-records :
    (it : Bool) (n0 rounds : ℕ) (r : List ℕ) (rs : List (List ℕ)) (rest : List ℕ)
    (reads : List ReadStep) (before : List (Option (List ℕ))) (o : Option (List ℕ))
    (after : List (Option (List ℕ)))
    → length rs + 1 ≤ rounds
    → AllFit (r ∷ rs) (o ∷ after)
    → Steady reads
    → (a : Reading) × (records_loop it 2 n0 rounds (
          stands (be32 (length r) ++ (r ++ (more_records 2 rs ++ (0 ∷ rest)))) reads before o after)
        ≡ received (length before + length (r ∷ rs)) a)
      × (outs_of a ≡ back_onto before (add_all (r ∷ rs) (o ∷ after)))
      × (a.sock.bytes ≡ rest)
      × Steady a.sock.reads
unfolding more_records AllFit add_all back_onto
records_loop-records it n0 zero r rs rest reads before o after le fit st = absurd (omega arith)
records_loop-records it n0 (suc rounds) r [] rest reads before o after le fit st =
    let (r', e, s) = round-record it n0 0 r rest reads before o after fit.1 fit.2 st in
    let a = stands rest r' before (append_to r o) after in
    (a, records_loop-stops it n0 rounds _ _ (e ∙ separate_end n0 a), refl, refl, s)
records_loop-records it n0 (suc rounds) r (q ∷ rs) rest reads before o [] le fit st = absurd fit.3
records_loop-records it n0 (suc rounds) r (q ∷ rs) rest reads before o (p ∷ after) le fit st =
    let rest' = (record_bytes 2 q ++ more_records 2 rs) ++ (0 ∷ rest) in
    let (r', e, s) =
      round-record it n0 record_separator r rest' reads before o (p ∷ after) fit.1 fit.2 st in
    let (a, e', outs, left, s') =
      records_loop-records it n0 rounds q rs rest r' (append_to r o ∷ before) p after (omega arith)
        fit.3 s in
    let number : length (append_to r o ∷ before) + length (q ∷ rs)
        ≡ length before + length (r ∷ q ∷ rs) =
      omega arith in
    let stepped =
      records_loop-step it n0 rounds _ _
        (e ∙ separate-record_separator n0 (socket rest' r') before (append_to r o) p after) in
    (
      a,
      stepped
          ∙ ap (λ t. records_loop it 2 n0 rounds (stands t r' (append_to r o ∷ before) p after))
              (records_assoc q (more_records 2 rs) (0 ∷ rest) fit.3.0)
          ∙ e'
          ∙ ap (λ n. received n a) number,
      outs,
      left,
      s',
    )
