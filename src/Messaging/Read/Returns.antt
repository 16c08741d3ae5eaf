-- ===== src/Messaging/Read/Returns.antt =====
-- That read_message of src/messaging.c comes to an end on every socket.
use libgroupcache.Base.{
  ℕ, zero, suc, ◌+◌, ◌≤◌, ◌≡◌, refl, ap, Bool, [], ◌∷◌, arith, ◌==◌, if◌then◌else◌,
}
use libgroupcache.AsyncReader.{noop}
use libgroupcache.Messaging.Socket.{got, timed_out, broken, Got, Socket}
use libgroupcache.Messaging.Read.{first_byte, first_or}
use libgroupcache.Messaging.Read.Takes.{left_in, Lowers, read_steps-Lowers}

-- The loop over the bytes that keep the connection alive comes to the same with any number of rounds more.
first_or-same :
    (f g : ℕ → Socket → ℕ × Socket) (k hdr : ℕ)
    → ((b : ℕ) (s : Socket) → left_in s + 1 ≤ k → f b s ≡ g b s)
    → (rb : Got) (s : Socket) → Lowers k rb s
    → first_or f hdr rb s ≡ first_or g hdr rb s
unfolding Lowers first_or
first_or-same f g k hdr same (got []) s h = refl
first_or-same f g k hdr same (got (b ∷ bs)) s h =
    let e = same b s (omega arith) in ap {B = ℕ × Socket} (λ t. if b == noop then t else (b, s)) e
first_or-same f g k hdr same timed_out s h = refl
first_or-same f g k hdr same broken s h = refl

pub first_byte_rounds :
    (it : Bool) (m n hdr : ℕ) (s : Socket)
    → left_in s + 1 ≤ m
    → left_in s + 1 ≤ n
    → first_byte it m hdr s ≡ first_byte it n hdr s
unfolding first_byte
first_byte_rounds it zero n hdr s le le' = absurd (omega arith)
first_byte_rounds it (suc m) zero hdr s le le' = absurd (omega arith)
first_byte_rounds it (suc m) (suc n) hdr s le le' =
    first_or-same _ _ (left_in s) hdr
      (λ b s' l. first_byte_rounds it m n b s' (omega arith) (omega arith)) _ _
      (read_steps-Lowers it 0 s.bytes s.reads)
