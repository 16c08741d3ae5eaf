-- ===== src/Serving/Status.antt =====
-- The answers of src/serving.c as the functions of src/messaging.c read them: a command sent to a peer, and
-- the result that its caller gets.
use libgroupcache.Base.{
  ℕ, zero, suc, ◌≡◌, refl, ap, ◌∙◌, subst, true, false, some, List, [], ◌∷◌, ℤ, pos, negsuc,
  minus_one,
}
use libgroupcache.Messaging.{
  build_message, record_bytes, more_records, records_bytes, StatusMode, simple_mode, boolean_mode,
  rc_to_status, hdr_delete, hdr_exists, hdr_response,
}
use libgroupcache.Base.Bytes.{be32}
use libgroupcache.Messaging.Peers.{
  Conn, delete_from_peer, exists_on_peer, exists_rc, ok_or_error, delete_internal, is_byte,
}
use libgroupcache.Messaging.Peers.Status.{Expects, Answered, request-Answered}
use libgroupcache.Serving.{is_get, status_array, status_delta, status_bytes}

status_bytes-with :
    (hdr : ℕ) (mode : StatusMode) (rc : ℤ)
    → is_get hdr ≡ false
    → status_bytes hdr 2 mode rc ≡ build_message hdr_response ((rc_to_status rc mode ∷ []) ∷ []) 2
unfolding status_bytes status_array status_delta build_message records_bytes record_bytes be32
    more_records
status_bytes-with hdr mode rc g = rw g refl

-- Without data
status_bytes-without :
    (hdr : ℕ) (mode : StatusMode) (rc : ℤ)
    → is_get hdr ≡ true
    → status_bytes hdr 2 mode rc ≡ build_message hdr_response [] 2
unfolding status_bytes status_array status_delta build_message records_bytes be32
status_bytes-without hdr mode rc g = rw g refl

-- What a caller gets for the result of a command on the peer.
unfoldable pub exists_result : ℤ → ℤ
exists_result (pos zero) = pos 0
exists_result (pos (suc zero)) = pos 1
exists_result _ = minus_one

unfoldable pub ok_result : ℤ → ℤ
ok_result (pos zero) = pos 0
ok_result _ = minus_one

exists_rc-status : (rc : ℤ) → exists_rc (some (rc_to_status rc boolean_mode)) ≡ exists_result rc
unfolding exists_rc rc_to_status exists_result
exists_rc-status (pos zero) = refl
exists_rc-status (pos (suc zero)) = refl
exists_rc-status (pos (suc (suc n))) = refl
exists_rc-status (negsuc n) = refl

ok_or_error-status : (rc : ℤ) → ok_or_error (some (rc_to_status rc simple_mode)) ≡ ok_result rc
unfolding is_byte rc_to_status ok_result
ok_or_error-status (pos zero) = refl
ok_or_error-status (pos (suc zero)) = refl
ok_or_error-status (pos (suc (suc n))) = refl
ok_or_error-status (negsuc n) = refl

answered_by :
    (hdr : ℕ) (mode : StatusMode) (rc : ℤ) (c : Conn) (rest : List ℕ)
    → is_get hdr ≡ false
    → Expects c (status_bytes hdr 2 mode rc) rest
    → Expects c (build_message hdr_response ((rc_to_status rc mode ∷ []) ∷ []) 2) rest
answered_by hdr mode rc c rest g x =
    subst (λ t. Expects c t rest) (status_bytes-with hdr mode rc g) x

-- exists_on_peer for a peer that answers with write_status, as shardcache_async_command_response does for EXISTS, in version 2,
-- with more bytes behind the answer, on a connection that can be written to and whose reads get four
-- bytes if they are there: the caller gets 1 or 0 as the peer found, and -1 for any other result; the
-- request is sent, and only the answer is read.
pub exists_on_peer-status_bytes :
    (key : List ℕ) (rc : ℤ) (c : Conn) (rest : List ℕ)
    → Expects c (status_bytes hdr_exists 2 boolean_mode rc) rest
    → (c' : Conn) × ◌≡◌ {A = ℤ × Conn} (exists_on_peer key true c) (exists_result rc, c')
      × Answered c c' hdr_exists (key ∷ []) rest
unfolding exists_on_peer
exists_on_peer-status_bytes key rc c rest x =
    let (c', e, a) =
      request-Answered hdr_exists (key ∷ []) (pos 0) (pos 0) exists_rc
        (rc_to_status rc boolean_mode) c rest
        (answered_by hdr_exists boolean_mode rc c rest refl x) in
    (c', e ∙ ap {B = ℤ × Conn} (λ r. (r, c')) (exists_rc-status rc), a)

-- delete_from_peer with expect_response, for a peer that answers with write_status, as it does for DELETE, in version 2, with
-- more bytes behind the answer, on a connection that can be written to and whose reads get four bytes
-- if they are there: the caller gets 0 if the peer's result is 0 and else -1; the request is sent, and
-- only the answer is read.
pub delete_from_peer-status_bytes :
    (key : List ℕ) (rc : ℤ) (c : Conn) (rest : List ℕ)
    → Expects c (status_bytes hdr_delete 2 simple_mode rc) rest
    → (c' : Conn) × ◌≡◌ {A = ℤ × Conn} (delete_from_peer key true c) (ok_result rc, c')
      × Answered c c' hdr_delete (key ∷ []) rest
unfolding delete_internal
delete_from_peer-status_bytes key rc c rest x =
    let (c', e, a) =
      request-Answered hdr_delete (key ∷ []) minus_one (pos 0) ok_or_error
        (rc_to_status rc simple_mode) c rest
        (answered_by hdr_delete simple_mode rc c rest refl x) in
    (c', e ∙ ap {B = ℤ × Conn} (λ r. (r, c')) (ok_or_error-status rc), a)
