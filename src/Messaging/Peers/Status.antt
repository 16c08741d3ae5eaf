-- ===== src/Messaging/Peers/Status.antt =====
-- What the commands of src/messaging.c return for an answer that build_message wrote.
use libgroupcache.Base.{
  ℕ, ◌+◌, ◌≤◌, ◌≡◌, refl, ap, ◌∙◌, Bool, true, false, Option, none, some, List, [], ◌∷◌, ◌++◌,
  length, arith, ℤ, pos,
}
use libgroupcache.AsyncReader.{protocol_version}
use libgroupcache.Messaging.{hdr_check, build_message, hdr_response}
use libgroupcache.Messaging.Socket.{Socket, socket}
use libgroupcache.Messaging.Read.{Reply, read_message, record_max}
use libgroupcache.Messaging.Read.Steady.{Steady}
use libgroupcache.Messaging.Read.Records.{add_all, AllFit}
use libgroupcache.Messaging.Read.RoundTrip.{read_message-build_message}
use libgroupcache.Messaging.Peers.{
  Conn, write_message, Answer, answer_of, read_answer, is_answer, first_byte_of, request,
  fetch_data, out_of,
}

-- A connection that can be written to, with an answer that comes, and more behind it.
pub record Expects (c : Conn) (answer rest : List ℕ) : Type 0 where
  pub writes : c.writable ≡ true
  pub comes : c.sock.bytes ≡ answer ++ rest
  pub steady : Steady c.sock.reads

-- The connection after a request that is answered.
abbrev pub Answered : Conn → Conn → ℕ → List (List ℕ) → List ℕ → Type 0
Answered c c' hdr records rest =
    (c'.written ≡ c.written ++ build_message hdr records protocol_version)
    × (c'.sock.bytes ≡ rest)
    × Steady c'.sock.reads

pub write_message-writable :
    (hdr : ℕ) (records : List (List ℕ)) (c : Conn)
    → c.writable ≡ true
    → write_message hdr records c
      ≡ (true, record c { written = c.written ++ build_message hdr records protocol_version })
unfolding write_message
write_message-writable hdr records c w = rw w refl

pub read_answer-build_message :
    (it : Bool) (h : ℕ) (r : List ℕ) (rs : List (List ℕ)) (outs : List (Option (List ℕ)))
    (rest : List ℕ) (c : Conn)
    → hdr_check h ≡ true
    → AllFit (r ∷ rs) outs
    → c.sock.bytes ≡ build_message h (r ∷ rs) 2 ++ rest
    → Steady c.sock.reads
    → (left : Socket) × (read_answer it outs c ≡ record {
      hdr = some h;
      num_records = some (length (r ∷ rs));
      resp = add_all (r ∷ rs) outs;
      left = left;
    })
      × (left.bytes ≡ rest)
      × Steady left.reads
unfolding read_answer answer_of
read_answer-build_message it h r rs outs rest c known fit comes st =
    let (a, e, o, l, s) =
      read_message-build_message it 0 h r rs outs rest c.sock.reads known fit st in
    (
      a.sock,
      ap
            (λ t.
              answer_of (read_message it 0 outs (socket t c.sock.reads)).ohdr
                (read_message it 0 outs (socket t c.sock.reads)).outcome)
            comes
          ∙ ap (λ (t : Reply). answer_of t.ohdr t.outcome) e
          ∙ ap {B = Answer}
              (λ t. record {
                hdr = some h;
                num_records = some (length (r ∷ rs));
                resp = t;
                left = a.sock;
              })
              o,
      l,
      s,
    )

known_response : hdr_check hdr_response ≡ true
unfolding hdr_check
known_response = refl

pub is_answer-same :
    (h n : ℕ) (resp : List (Option (List ℕ))) (left : Socket)
    → is_answer h n (record { hdr = some h; num_records = some n; resp = resp; left = left }) ≡ true
unfolding is_answer
is_answer-same h n resp left = ground arith

-- The request of `request`, for the answer to it.
request-reads :
    (hdr : ℕ) (records : List (List ℕ)) (bad other : ℤ) (rc_of : Option ℕ → ℤ) (c c' : Conn)
    (a : Answer)
    → write_message hdr records c ≡ (true, c')
    → read_answer false (some [] ∷ []) c' ≡ a
    → is_answer hdr_response 1 a ≡ true
    → ◌≡◌ {A = ℤ × Conn}
        (request hdr records bad other rc_of c)
        (rc_of (first_byte_of a.resp), record c' { sock = a.left })
unfolding request
request-reads hdr records bad other rc_of c c' a w e i = rw (w, request) (rw e (rw i refl))

-- A request whose answer is a response of one record: its first byte gives the result.
pub request-Answered :
    (hdr : ℕ) (records : List (List ℕ)) (bad other : ℤ) (rc_of : Option ℕ → ℤ) (b : ℕ) (c : Conn)
    (rest : List ℕ)
    → Expects c (build_message hdr_response ((b ∷ []) ∷ []) 2) rest
    → (c' : Conn) × ◌≡◌ {A = ℤ × Conn} (request hdr records bad other rc_of c) (rc_of (some b), c')
      × Answered c c' hdr records rest
unfolding first_byte_of add_all AllFit
request-Answered hdr records bad other rc_of b c rest x =
    let c' = record c { written = c.written ++ build_message hdr records protocol_version } in
    let (left, e, l, s) =
      read_answer-build_message false hdr_response (b ∷ []) [] (some [] ∷ []) rest c' known_response
        (omega arith, omega arith, omega arith, tt) x.comes x.steady in
    (
      record c' { sock = left },
      request-reads hdr records bad other rc_of c c' _
          (write_message-writable hdr records c x.writes) e (is_answer-same hdr_response 1 _ left),
      (refl, l, s),
    )

fetch-reads :
    (hdr : ℕ) (records : List (List ℕ)) (others : List (Option (List ℕ))) (out : List ℕ)
    (c c' : Conn) (a : Answer)
    → write_message hdr records c ≡ (true, c')
    → read_answer false (some out ∷ others) c' ≡ a
    → is_answer hdr_response (length others + 1) a ≡ true
    → ◌≡◌ {A = ℤ × List ℕ × Conn}
        (fetch_data hdr records others out c)
        (pos 0, out_of a.resp out, record c' { sock = a.left })
unfolding fetch_data
fetch-reads hdr records others out c c' a w e i = rw (w, fetch_data) (rw e (rw i refl))

-- A fetch_data whose answer is a response of a value and one record more that is thrown away.
pub fetch-Answered :
    (hdr : ℕ) (records : List (List ℕ)) (out bytes : List ℕ) (b : ℕ) (c : Conn) (rest : List ℕ)
    → Expects c (build_message hdr_response (bytes ∷ (b ∷ []) ∷ []) 2) rest
    → 1 ≤ length bytes
    → length out + length bytes ≤ record_max
    → (c' : Conn) × ◌≡◌ {A = ℤ × List ℕ × Conn}
        (fetch_data hdr records (none ∷ []) out c)
        (pos 0, out ++ bytes, c')
      × Answered c c' hdr records rest
unfolding add_all AllFit
fetch-Answered hdr records out bytes b c rest x one fits =
    let c' = record c { written = c.written ++ build_message hdr records protocol_version } in
    let (left, e, l, s) =
      read_answer-build_message false hdr_response bytes ((b ∷ []) ∷ []) (some out ∷ none ∷ []) rest
        c' known_response (one, omega arith, fits, (omega arith, omega arith, tt, tt)) x.comes
        x.steady in
    (
      record c' { sock = left },
      fetch-reads hdr records (none ∷ []) out c c' _ (write_message-writable hdr records c x.writes)
          e (is_answer-same hdr_response 2 _ left),
      (refl, l, s),
    )
