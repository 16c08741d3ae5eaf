-- ===== src/Serving/Get.antt =====
-- The answer to a get, as get_async_data_handler of src/serving.c writes it from the pieces of a value.
use libgroupcache.Base.{
  ℕ, ◌+◌, ◌%◌, ◌^◌, ◌≤◌, ◌<◌, ◌≡◌, refl, sym, ap, ◌∙◌, true, false, ◌&&◌, List, [], ◌∷◌, ◌++◌,
  length, append_assoc, All, arith, ltb, ◌==◌, if_both,
}
use libgroupcache.Base.Words.{u32_mod}
use libgroupcache.Base.Bytes.{be32}
use libgroupcache.AsyncReader.{record_separator}
use libgroupcache.Messaging.{
  hdr_get_offset, hdr_response, res_ok, build_message, more_records, records_bytes,
}
use libgroupcache.Messaging.Read.Records.{record_bytes-full}
use libgroupcache.Serving.{
  Request, response_start, preamble, epilogue, epilogue_bytes, Piece, v2_data, flush, offset_record,
  finish_value, record_size, begin_value, get_async_data_handler, handle_all,
}

-- The pieces of a value that arrives, of the total size `total`, and the last call, with a timestamp.
abbrev pub part : ℕ → List ℕ → Piece
part total bytes = record { content = bytes; total = total; stamped = false }

abbrev pub last_part : ℕ → List ℕ → Piece
last_part total bytes = record { content = bytes; total = total; stamped = true }

unfoldable pub parts : ℕ → List (List ℕ) → List ℕ → List Piece
parts total [] last = last_part total last ∷ []
parts total (x ∷ xs) last = part total x ∷ parts total xs last

-- The value
unfoldable pub joined : List (List ℕ) → List ℕ → List ℕ
joined [] last = last
joined (x ∷ xs) last = x ++ joined xs last

-- A get in version 2, not of a part.
abbrev pub IsGet : Request → Type 0
IsGet r = (r.version ≡ 2) × ((r.hdr == hdr_get_offset) ≡ false)

-- The data of a piece is added to the output.
abbrev added : List ℕ → Request → Request
added bytes r = record r { output = r.output ++ bytes; copied = r.copied + length bytes }

v2_handler :
    (p : Piece) (r : Request)
    → r.version ≡ 2
    → 1 ≤ p.total
    → (get_async_data_handler p r).0 ≡ finish_value p (v2_data p.content (begin_value p.total r))
unfolding get_async_data_handler
v2_handler p r v one =
    let some_left : ((length p.content == 0) && (p.total == 0)) ≡ false = ground arith in
    rw some_left (rw v refl)

handler-part :
    (total : ℕ) (x : List ℕ) (r : Request)
    → r.version ≡ 2
    → 1 ≤ total
    → (get_async_data_handler (part total x) r).0 ≡ added x (begin_value total r)
unfolding finish_value v2_data
handler-part total x r v one =
    let open_still : (ltb 0 total && false) ≡ false = ground arith in
    v2_handler (part total x) r v one ∙ rw open_still refl

flush_none : (r : Request) → flush 0 r ≡ r
unfolding flush
flush_none r = refl

not_offset : (total : ℕ) (r : Request) → IsGet r → offset_record total r ≡ r
unfolding offset_record
not_offset total r is = rw is.1 refl

begin_value-IsGet : (total : ℕ) (r : Request) → IsGet r → IsGet (begin_value total r)
unfolding begin_value preamble
begin_value-IsGet total r is = if_both IsGet (r.copied == 0) _ _ is is

finish_value-stamped :
    (total : ℕ) (y : List ℕ) (r : Request)
    → IsGet r
    → 1 ≤ total
    → (finish_value (last_part total y) (r, 0)).output ≡ r.output ++ epilogue_bytes 2 res_ok
unfolding finish_value epilogue
finish_value-stamped total y r is one =
    let closed : (ltb 0 total && true) ≡ true = ground arith in
    rw closed (
      ap (λ t. (epilogue res_ok (offset_record total t)).output) (flush_none r)
      ∙ ap (λ t. (epilogue res_ok t).output) (not_offset total r is)
      ∙ ap (λ v. r.output ++ epilogue_bytes v res_ok) is.0)

handler-last_part :
    (total : ℕ) (y : List ℕ) (r : Request)
    → IsGet r
    → 1 ≤ total
    → (get_async_data_handler (last_part total y) r).0.output
      ≡ (begin_value total r).output ++ (y ++ epilogue_bytes 2 res_ok)
unfolding v2_data
handler-last_part total y r is one =
    let b = begin_value total r in
    ap (λ t. t.output) (v2_handler (last_part total y) r is.0 one)
    ∙ finish_value-stamped total y (added y b) (begin_value-IsGet total r is) one
    ∙ append_assoc b.output y (epilogue_bytes 2 res_ok)

begun : (total : ℕ) (r : Request) → 1 ≤ r.copied → begin_value total r ≡ r
unfolding begin_value
begun total r one = let e : (r.copied == 0) ≡ false = ground arith in rw e refl

begins :
    (total : ℕ) (r : Request)
    → IsGet r
    → r.copied ≡ 0
    → total < 2 ^ 32
    → (begin_value total r).output ≡ r.output ++ (response_start 2 ++ be32 total)
unfolding begin_value preamble record_size
begins total r is c le =
    let e : (r.copied == 0) ≡ true = ground arith in
    let same : total % u32_mod ≡ total = omega arith in
    rw (e, begin_value) (rw is.1 (rw same (rw is.0 refl)))

-- The pieces after the first
handle_all-parts :
    (total : ℕ) (xs : List (List ℕ)) (last : List ℕ) (r : Request)
    → IsGet r
    → 1 ≤ total
    → 1 ≤ r.copied
    → (handle_all (parts total xs last) r).output
      ≡ r.output ++ (joined xs last ++ epilogue_bytes 2 res_ok)
unfolding handle_all parts joined
handle_all-parts total [] last r is one began =
    handler-last_part total last r is one
    ∙ ap (λ t. t.output ++ (last ++ epilogue_bytes 2 res_ok)) (begun total r began)
handle_all-parts total (x ∷ xs) last r is one began =
    ap (λ t. (handle_all (parts total xs last) t).output)
      (handler-part total x r is.0 one ∙ ap (added x) (begun total r began))
    ∙ handle_all-parts total xs last (added x r) is one (omega arith)
    ∙ append_assoc r.output x (joined xs last ++ epilogue_bytes 2 res_ok)
    ∙ ap (λ t. r.output ++ t) (sym (append_assoc x (joined xs last) (epilogue_bytes 2 res_ok)))

response-build_message :
    (bytes : List ℕ)
    → 1 ≤ length bytes
    → response_start 2 ++ (be32 (length bytes) ++ (bytes ++ epilogue_bytes 2 res_ok))
      ≡ build_message hdr_response (bytes ∷ (res_ok ∷ []) ∷ []) 2
unfolding build_message records_bytes more_records epilogue_bytes be32
response-build_message bytes one =
    let status = record_bytes-full (res_ok ∷ []) (omega arith) in
    let more = record_separator ∷ (be32 1 ++ (res_ok ∷ [])) in
    rw (record_bytes-full bytes one) (
      rw status (
        sym (
          ap (λ t. response_start 2 ++ t)
            (append_assoc (be32 (length bytes) ++ bytes) more (0 ∷ [])
              ∙ append_assoc (be32 (length bytes)) bytes (more ++ (0 ∷ []))))))

framed :
    (total : ℕ) (bytes : List ℕ) (r : Request)
    → length bytes ≡ total
    → 1 ≤ total
    → (r.output ++ (response_start 2 ++ be32 total)) ++ (bytes ++ epilogue_bytes 2 res_ok)
      ≡ r.output ++ build_message hdr_response (bytes ∷ (res_ok ∷ []) ∷ []) 2
framed total bytes r whole one =
    append_assoc r.output (response_start 2 ++ be32 total) (bytes ++ epilogue_bytes 2 res_ok)
    ∙ ap (λ t. r.output ++ t)
        (append_assoc (response_start 2) (be32 total) (bytes ++ epilogue_bytes 2 res_ok)
          ∙ ap (λ n. response_start 2 ++ (be32 n ++ (bytes ++ epilogue_bytes 2 res_ok))) (sym whole)
          ∙ response-build_message bytes (omega arith))

copied_first : (total : ℕ) (r : Request) → (begin_value total r).copied ≡ r.copied
unfolding begin_value preamble
copied_first total r = if_both (λ (t : Request). t.copied ≡ r.copied) (r.copied == 0) _ _ refl refl

-- The pieces of a value, each with the total size, as get_async_data_handler gets them, and then the last call,
-- with a timestamp, for a get in version 2 that has copied nothing yet. All but the last have bytes,
-- and the value has as many as the total says, from 1 to 2^32 - 1: what is written is the message of
-- build_message for a response whose records are the whole value and SHC_RES_OK.
pub get_async_data_handler-build_message :
    (total : ℕ) (xs : List (List ℕ)) (last : List ℕ) (r : Request)
    → IsGet r
    → r.copied ≡ 0
    → All (λ x. 1 ≤ length x) xs
    → length (joined xs last) ≡ total
    → 1 ≤ total
    → total < 2 ^ 32
    → (handle_all (parts total xs last) r).output
      ≡ r.output ++ build_message hdr_response (joined xs last ∷ (res_ok ∷ []) ∷ []) 2
unfolding handle_all parts joined
get_async_data_handler-build_message total [] last r is none_yet some_bytes whole one le =
    handler-last_part total last r is one
    ∙ ap (λ t. t ++ (last ++ epilogue_bytes 2 res_ok)) (begins total r is none_yet le)
    ∙ framed total last r whole one
get_async_data_handler-build_message total (x ∷ xs) last r is none_yet some_bytes whole one le =
    let b = begin_value total r in
    let began : 1 ≤ b.copied + length x = omega (arith, some_bytes.0) in
    ap (λ t. (handle_all (parts total xs last) t).output) (handler-part total x r is.0 one)
    ∙ handle_all-parts total xs last (added x b) (begin_value-IsGet total r is) one began
    ∙ append_assoc b.output x (joined xs last ++ epilogue_bytes 2 res_ok)
    ∙ ap (λ t. b.output ++ t) (sym (append_assoc x (joined xs last) (epilogue_bytes 2 res_ok)))
    ∙ ap (λ t. t ++ (joined (x ∷ xs) last ++ epilogue_bytes 2 res_ok))
        (begins total r is none_yet le)
    ∙ framed total (joined (x ∷ xs) last) r whole one
