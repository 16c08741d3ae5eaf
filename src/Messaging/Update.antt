-- ===== src/Messaging/Update.antt =====
-- Messages of build_message, src/messaging.c, in the asynchronous reader of src/async_reader.c.
use libgroupcache.Base.{
  ℕ, ◌≡◌, refl, ap, ◌∙◌, true, false, List, [], ◌∷◌, ◌++◌, length, All, append_assoc, arith, ltb,
  ◌==◌, negsuc,
}
use libgroupcache.Base.Bytes.{be32}
use libgroupcache.AsyncReader.{
  Ctx, Callback, Accepts, Call, reading_done, reading_record, reading_magic, reading_hdr, is_in,
  record_separator, ended, reset, skip_noops, read_first, read_magic, read_hdr, parse_protocol,
  tell_done, then_tell, update_ctx, new_ctx,
}
use libgroupcache.AsyncReader.Rounds.{waiting}
use libgroupcache.AsyncReader.Records.{
  IsRecord, format, format_tail, calls_for, parse_protocol-format,
}
use libgroupcache.Messaging.{build_message, more_records, records_bytes}
use libgroupcache.Messaging.Read.Records.{record_bytes-full}

more_records-format_tail :
    (ys : List (List ℕ)) → All IsRecord ys → more_records 2 ys ++ (0 ∷ []) ≡ format_tail ys
unfolding more_records format_tail be32
more_records-format_tail [] is = refl
more_records-format_tail (y ∷ ys) is = rw (record_bytes-full y is.0.0) (
    ap (◌∷◌ record_separator) (
      append_assoc (be32 (length y) ++ y) (more_records 2 ys) (0 ∷ [])
      ∙ append_assoc (be32 (length y)) y (more_records 2 ys ++ (0 ∷ []))
      ∙ ap (λ t. be32 (length y) ++ (y ++ t)) (more_records-format_tail ys is.1)))

build_message-format :
    (h : ℕ) (x : List ℕ) (ys : List (List ℕ))
    → IsRecord x
    → All IsRecord ys
    → build_message h (x ∷ ys) 2 ≡ 115 ∷ 104 ∷ 99 ∷ 2 ∷ h ∷ format x ys
unfolding build_message records_bytes be32
build_message-format h x ys i is = rw (record_bytes-full x i.0) (
    ap (λ t. 115 ∷ 104 ∷ 99 ∷ 2 ∷ h ∷ t)
      (append_assoc (be32 (length x) ++ x) (more_records 2 ys) (0 ∷ [])
        ∙ append_assoc (be32 (length x)) x (more_records 2 ys ++ (0 ∷ []))
        ∙ ap (λ t. be32 (length x) ++ (x ++ t)) (more_records-format_tail ys is)))

-- The header of a message as the reader keeps it.
abbrev headed : ℕ → Ctx
headed h = record new_ctx { hdr = h; magic = 115 ∷ 104 ∷ 99 ∷ 2 ∷ []; version = 2 }

-- A new context with the bytes of a message, on its way to the records.
abbrev fresh : List ℕ → Ctx
fresh bytes = record new_ctx { buf = bytes }

first_read :
    (h : ℕ) (body : List ℕ)
    → read_first (fresh (115 ∷ 104 ∷ 99 ∷ 2 ∷ h ∷ body))
      ≡ record (fresh (104 ∷ 99 ∷ 2 ∷ h ∷ body)) { magic = 115 ∷ []; state = reading_magic }
unfolding read_first skip_noops
first_read h body =
    let some_bytes : (length (115 ∷ 104 ∷ 99 ∷ 2 ∷ h ∷ body) == 0) ≡ false = ground arith in
    rw some_bytes refl

magic_read :
    (h : ℕ) (body : List ℕ)
    → read_magic
        (record (fresh (104 ∷ 99 ∷ 2 ∷ h ∷ body)) { magic = 115 ∷ []; state = reading_magic })
      ≡ record (headed 0) { buf = h ∷ body; state = reading_hdr }
unfolding read_magic
magic_read h body =
    let enough : ltb (length (104 ∷ 99 ∷ 2 ∷ h ∷ body)) 3 ≡ false = ground arith in rw enough refl

hdr_read :
    (h : ℕ) (body : List ℕ)
    → read_hdr (record (headed 0) { buf = h ∷ body; state = reading_hdr })
      ≡ waiting (headed h) [] 0 body
unfolding read_hdr
hdr_read h body = let one : (length (h ∷ body) == 0) ≡ false = ground arith in rw one refl

update_ctx-step :
    (cb : Callback) (a b : Ctx)
    → reset a ≡ a
    → (length a.buf == 0) ≡ false
    → read_hdr (read_magic (read_first a)) ≡ b
    → is_in b.state reading_record ≡ true
    → update_ctx cb a ≡ then_tell cb (parse_protocol cb b)
unfolding update_ctx
update_ctx-step cb a b r z e i = rw (r, update_ctx) (rw z (rw e (rw i refl)))

started :
    (cb : Callback) (h : ℕ) (body : List ℕ)
    → update_ctx cb (fresh (115 ∷ 104 ∷ 99 ∷ 2 ∷ h ∷ body))
      ≡ then_tell cb (parse_protocol cb (waiting (headed h) [] 0 body))
unfolding reset
started cb h body =
    let some_bytes : (length (115 ∷ 104 ∷ 99 ∷ 2 ∷ h ∷ body) == 0) ≡ false = ground arith in
    update_ctx-step cb (fresh (115 ∷ 104 ∷ 99 ∷ 2 ∷ h ∷ body)) (waiting (headed h) [] 0 body) refl
      some_bytes
      (ap (λ a. read_hdr (read_magic a)) (first_read h body)
        ∙ ap read_hdr (magic_read h body)
        ∙ hdr_read h body)
      refl

tell_done-accepted :
    (cb : Callback) (a : Ctx)
    → a.state ≡ reading_done
    → Accepts cb
    → tell_done cb a
      ≡ record a { calls = record { payload = []; index = negsuc 0; total = a.clen } ∷ a.calls }
unfolding tell_done
tell_done-accepted cb a d accepts =
    let e : is_in a.state reading_done ≡ true = ap (λ t. is_in t reading_done) d in
    rw e
      (rw (accepts a.calls (record { payload = []; index = negsuc 0; total = a.clen }) refl) refl)

-- async_read_context_update of a new context whose buffer has a whole message that build_message wrote in
-- version 2, of records of 1 to 65535 bytes, for a callback that returns 0 but for an error: the message is done with
-- its header, the buffer is empty, and the callback got every record with its index, in order, and
-- then the end of the message.
pub update_ctx-build_message :
    (cb : Callback) (h : ℕ) (x : List ℕ) (ys : List (List ℕ))
    → Accepts cb
    → IsRecord x
    → All IsRecord ys
    → (b : Ctx) × (update_ctx cb (record new_ctx { buf = build_message h (x ∷ ys) 2 }) ≡ ended b)
      × (b.state ≡ reading_done)
      × (b.hdr ≡ h)
      × (b.buf ≡ [])
      × (b.calls ≡ record { payload = []; index = negsuc 0; total = b.clen } ∷ calls_for [] 0 x ys)
update_ctx-build_message cb h x ys accepts i is =
    let (b, e, d, u, h', cs) = parse_protocol-format cb (headed h) [] 0 x ys accepts i is in
    let last : Call = record { payload = []; index = negsuc 0; total = b.clen } in
    (
      record b { calls = last ∷ b.calls },
      ap (λ t. update_ctx cb (record new_ctx { buf = t })) (build_message-format h x ys i is)
          ∙ started cb h (format x ys)
          ∙ ap (then_tell cb) e
          ∙ ap ended (tell_done-accepted cb b d accepts),
      d,
      h',
      u,
      ap (◌∷◌ last) cs,
    )
