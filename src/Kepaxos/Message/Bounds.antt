-- ===== src/Kepaxos/Message/Bounds.antt =====
-- kepaxos_parse_message of src/kepaxos.c stays inside the buffer that it is given.
use libgroupcache.Base.{
  ℕ, zero, suc, ◌+◌, ◌-◌, ◌≤◌, ◌≡◌, ◌≢◌, refl, true, false, Option, some, List, [], ◌∷◌, length,
  leb, leb→le, arith, Bool,
}
use libgroupcache.Base.Bytes.{read8, read16, read32, read_bytes}
use libgroupcache.Kepaxos.Message.{
  msglen_min, Parsed, fault, ◌>>=◌, expect, parse_tail, parse_words, parse_message,
}

-- A read of so many bytes succeeds if they are there, and leaves the others.
abbrev Reads : {A : Type 0} → Option (A × List ℕ) → ℕ → Type 0
Reads {A} r n = (v : A) × (rest : List ℕ) × (r ≡ some (v, rest)) × (length rest ≡ n)

read8-Reads : (p : List ℕ) → 1 ≤ length p → Reads (read8 p) (length p - 1)
unfolding read8
read8-Reads [] h = absurd (omega arith)
read8-Reads (a ∷ p) h = (a, p, refl, omega arith)

read16-Reads : (p : List ℕ) → 2 ≤ length p → Reads (read16 p) (length p - 2)
unfolding read16
read16-Reads [] h = absurd (omega arith)
read16-Reads (a ∷ []) h = absurd (omega arith)
read16-Reads (a ∷ b ∷ p) h = (_, p, refl, omega arith)

read32-Reads : (p : List ℕ) → 4 ≤ length p → Reads (read32 p) (length p - 4)
unfolding read32
read32-Reads [] h = absurd (omega arith)
read32-Reads (a ∷ []) h = absurd (omega arith)
read32-Reads (a ∷ b ∷ []) h = absurd (omega arith)
read32-Reads (a ∷ b ∷ c ∷ []) h = absurd (omega arith)
read32-Reads (a ∷ b ∷ c ∷ d ∷ p) h = (_, p, refl, omega arith)

read_bytes-Reads : (n : ℕ) (p : List ℕ) → n ≤ length p → Reads (read_bytes n p) (length p - n)
unfolding read_bytes
read_bytes-Reads zero p h = ([], p, refl, omega arith)
read_bytes-Reads (suc n) [] h = absurd (omega arith)
read_bytes-Reads (suc n) (x ∷ p) h =
    let (v, rest, e, l) = read_bytes-Reads n p (omega arith) in (x ∷ v, rest, rw e, omega arith)

expect-ne-fault : (b : Bool) (r : Parsed) → (b ≡ true → r ≢ fault) → expect b r ≢ fault
expect-ne-fault true r h = h refl
expect-ne-fault false r h = λ e. ground arith

-- A read that succeeds is no fault, if what follows is none.
bind-ne-fault :
    {A : Type 0}
    → (r : Option (A × List ℕ)) (n : ℕ) (f : A × List ℕ → Parsed) → Reads r n
    → ((v : A) (rest : List ℕ) → length rest ≡ n → f (v, rest) ≢ fault)
    → (r >>= f) ≢ fault
bind-ne-fault r n f (v, rest, e, l) h = rw e (h v rest l)

-- A length and the bytes that it counts, for which a test has made room.
field-ne-fault :
    (msglen used : ℕ) (p : List ℕ) (f : List ℕ × List ℕ → Parsed) (klen : ℕ)
    → msglen ≤ length p + used
    → ((v : List ℕ) (rest : List ℕ)
        → used + klen ≤ msglen
        → length p ≡ length rest + klen
        → f (v, rest) ≢ fault)
    → expect (leb (used + klen) msglen) (read_bytes klen p >>= f) ≢ fault
field-ne-fault msglen used p f klen le h = expect-ne-fault (leb (used + klen) msglen) _ (λ k.
    let fits = leb→le _ _ k in
    bind-ne-fault _ (length p - klen) f (read_bytes-Reads klen p (omega arith))
      (λ v rest l. h v rest fits (omega arith)))

-- After the ballot and the sequence number, all reads are within the buffer.
parse_tail-ne-fault :
    (msglen expected ballot seq : ℕ) (peer p : List ℕ)
    → expected ≤ msglen
    → length p + expected ≡ msglen + 11
    → parse_tail msglen expected peer ballot seq p ≢ fault
unfolding parse_tail
parse_tail-ne-fault msglen expected ballot seq peer p le len =
    bind-ne-fault (read8 p) _ _ (read8-Reads p (omega arith)) (λ mtype p1 l1.
      bind-ne-fault (read8 p1) _ _ (read8-Reads p1 (omega arith)) (λ ctype p2 l2.
        bind-ne-fault (read8 p2) _ _ (read8-Reads p2 (omega arith)) (λ committed p3 l3.
          bind-ne-fault (read32 p3) _ _ (read32-Reads p3 (omega arith)) (λ klen p4 l4.
            expect-ne-fault (leb (expected + klen) msglen) _ (λ k.
              let le1 = leb→le _ _ k in
              bind-ne-fault (read_bytes klen p4) _ _ (read_bytes-Reads klen p4 (omega arith))
                (λ key p5 l5.
                  bind-ne-fault (read32 p5) _ _ (read32-Reads p5 (omega arith)) (λ dlen p6 l6.
                    field-ne-fault msglen (expected + klen) p6 _ dlen (omega arith)
                      (λ v rest a b e. ground arith))))))))

parse_words-ne-fault :
    (msglen expected : ℕ) (peer p : List ℕ)
    → expected ≤ msglen
    → length p + expected ≡ msglen + 27
    → parse_words msglen expected peer p ≢ fault
unfolding parse_words
parse_words-ne-fault msglen expected peer p le len =
    bind-ne-fault (read32 p) _ _ (read32-Reads p (omega arith)) (λ a p1 l1.
      bind-ne-fault (read32 p1) _ _ (read32-Reads p1 (omega arith)) (λ b p2 l2.
        bind-ne-fault (read32 p2) _ _ (read32-Reads p2 (omega arith)) (λ c p3 l3.
          bind-ne-fault (read32 p3) _ _ (read32-Reads p3 (omega arith))
            (λ d p4 l4. parse_tail-ne-fault msglen expected _ _ peer p4 le (omega arith)))))

-- kepaxos_parse_message, given the true length of its buffer, reads no byte outside of it,
-- whatever the buffer holds: it answers with a message or with -1.
pub parse_message-ne-fault : (msg : List ℕ) → parse_message msg ≢ fault
unfolding parse_message
parse_message-ne-fault msg = expect-ne-fault (leb msglen_min (length msg)) _ (λ h.
    let le1 = leb→le _ _ h in
    bind-ne-fault (read16 msg) _ _ (read16-Reads msg (omega arith)) (λ sender_len peer l1.
      field-ne-fault (length msg) msglen_min peer _ sender_len (omega arith) (λ sender p le2 l2.
        parse_words-ne-fault (length msg) (msglen_min + sender_len) peer p le2 (omega arith))))
