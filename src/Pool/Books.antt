-- ===== src/Pool/Books.antt =====
-- Where the connections of src/connections_pool.c are: none is lost, and none is in two places.
use libgroupcache.Base.{
  ℕ, zero, suc, ◌+◌, ◌<◌, ◌≤◌, Bool, true, false, Bool-cases, Option, none, some, some_inj, List,
  [], ◌∷◌, ◌++◌, length, length-append, All, ltb, ltb→lt, keys_discrete, one, count, ◌≡◌, ◌≢◌, refl,
  sym, ap, ◌∙◌, subst, inl, inr, arith,
}
use mathlib.Core.Logic.{ite, if_pos, if_neg}
use libgroupcache.Pool.{
  Entry, Sys, Pool, queue_of, set_queue, queue_or_new, get_connection_queue, close_fd, Selected,
  select_failed, select_ready, select_timeout, noop_round, write_noop, add_to, pool_add,
}

-- write_noop never ends, whatever select and write give.
noop_round-goes_on : (s : Selected) (again late : Bool) → noop_round s again late ≡ true
unfolding noop_round
noop_round-goes_on select_failed true late = refl
noop_round-goes_on select_failed false late = refl
noop_round-goes_on select_ready true late = refl
noop_round-goes_on select_ready false late = refl
noop_round-goes_on select_timeout again true = refl
noop_round-goes_on select_timeout again false = refl

pub write_noop-endless :
    (rounds : ℕ → Selected × Bool × Bool) (i n : ℕ) → write_noop rounds i n ≡ none
unfolding write_noop
write_noop-endless rounds i zero = refl
write_noop-endless rounds i (suc n) =
    rw (noop_round-goes_on (rounds i).0 (rounds i).1 (rounds i).2)
      (write_noop-endless rounds (i + 1) n)

none-ne-some {ℓ} : {A : Type ℓ} (a : A) → none ≢ some a
none-ne-some a = λ e. cc

unfoldable pub count_in : ℕ → List Entry → ℕ
count_in fd [] = 0
count_in fd (e ∷ es) = one fd e.fd + count_in fd es

unfoldable pub pooled : ℕ → List (List ℕ × List Entry) → ℕ
pooled fd [] = 0
pooled fd ((a, q) ∷ rest) = count_in fd q + pooled fd rest

-- In how many places of a pool a connection is: idle in a queue, or closed.
abbrev pub held : Pool → ℕ → ℕ
held p fd = pooled fd p.table + count fd p.closed

abbrev pub returned : Option ℕ → ℕ → ℕ
returned none fd = 0
returned (some x) fd = one fd x

count_in-append :
    (fd : ℕ) (xs ys : List Entry) → count_in fd (xs ++ ys) ≡ count_in fd xs + count_in fd ys
unfolding count_in
count_in-append fd [] ys = ground arith
count_in-append fd (x ∷ xs) ys = ground (arith, count_in-append fd xs ys)

-- One entry of the table, by whether its address is the one that is looked for.
set_queue_step :
    (fd : ℕ) (addr a : List ℕ) (q r p : List Entry) (rest : List (List ℕ × List Entry))
    (d : Dec (a ≡ addr))
    → (queue_of addr rest ≡ some q
        → pooled fd (set_queue addr r rest) + count_in fd q ≡ pooled fd rest + count_in fd r)
    → ite d (some p) (queue_of addr rest) ≡ some q
    → pooled fd (ite d ((a, r) ∷ rest) ((a, p) ∷ set_queue addr r rest)) + count_in fd q
      ≡ pooled fd ((a, p) ∷ rest) + count_in fd r
unfolding pooled
set_queue_step fd addr a q r p rest (yes e) ih h =
    let same : count_in fd p ≡ count_in fd q = ap (count_in fd) (some_inj p q h) in ground arith
set_queue_step fd addr a q r p rest (no n) ih h = let i = ih h in ground arith

pub pooled-set_queue :
    (fd : ℕ) (addr : List ℕ) (q r : List Entry) (t : List (List ℕ × List Entry))
    → queue_of addr t ≡ some q
    → pooled fd (set_queue addr r t) + count_in fd q ≡ pooled fd t + count_in fd r
unfolding queue_of set_queue pooled
pooled-set_queue fd addr q r [] h = absurd (none-ne-some q h)
pooled-set_queue fd addr q r ((a, p) ∷ rest) h =
    set_queue_step fd addr a q r p rest (keys_discrete a addr) (pooled-set_queue fd addr q r rest) h

-- No queue is longer than so many entries.
abbrev pub IsBounded : ℕ → List (List ℕ × List Entry) → Type 0
IsBounded n t = All (λ (e : List ℕ × List Entry). length e.1 ≤ n) t

pub set_queue-IsBounded :
    (n : ℕ) (addr : List ℕ) (r : List Entry) (t : List (List ℕ × List Entry))
    → IsBounded n t
    → length r ≤ n
    → IsBounded n (set_queue addr r t)
unfolding set_queue
set_queue-IsBounded n addr r [] b h = tt
set_queue-IsBounded n addr r ((a, p) ∷ rest) b h = elim (keys_discrete a addr) [
  | yes e ↦
      rw (if_pos (keys_discrete a addr) e ((a, r) ∷ rest) ((a, p) ∷ set_queue addr r rest)) (h, b.1)
  | no m ↦
      rw (if_neg (keys_discrete a addr) m ((a, r) ∷ rest) ((a, p) ∷ set_queue addr r rest))
        (b.0, set_queue-IsBounded n addr r rest b.1 h)
]

pub queue_of-IsBounded :
    (n : ℕ) (addr : List ℕ) (q : List Entry) (t : List (List ℕ × List Entry))
    → IsBounded n t
    → queue_of addr t ≡ some q
    → length q ≤ n
unfolding queue_of
queue_of-IsBounded n addr q [] b h = absurd (none-ne-some q h)
queue_of-IsBounded n addr q ((a, p) ∷ rest) b h = elim (keys_discrete a addr) [
  | yes e ↦
      let same : p ≡ q =
        some_inj p q (sym (if_pos (keys_discrete a addr) e (some p) (queue_of addr rest)) ∙ h) in
      subst (λ (l : List Entry). length l ≤ n) same b.0
  | no m ↦
      queue_of-IsBounded n addr q rest b.1
        (sym (if_neg (keys_discrete a addr) m (some p) (queue_of addr rest)) ∙ h)
]

-- The queue of an address is in the table of the pool, which holds what it held.
pub record IsFound (p b : Pool) (addr : List ℕ) (q : List Entry) : Type 0 where
  pub there : queue_of addr b.table ≡ some q
  pub kept : (fd : ℕ) → held b fd ≡ held p fd
  pub spare : b.max_spare ≡ p.max_spare
  pub checks : b.check ≡ p.check
  pub bounded : (n : ℕ) → IsBounded n p.table → IsBounded n b.table

unfoldable pub FoundIn : Pool → List ℕ → Option (Pool × List Entry) → Type 0
FoundIn p addr none = Unit {0}
FoundIn p addr (some (b, q)) = IsFound p b addr q

queue_or_new-FoundIn :
    (S : Sys) (p : Pool) (addr : List ℕ) (o : Option (List Entry))
    → queue_of addr p.table ≡ o
    → FoundIn p addr (queue_or_new S p addr o)
unfolding queue_or_new pooled count_in queue_of FoundIn
queue_or_new-FoundIn S p addr (some q) e = record {
  there = e;
  kept = λ fd. refl;
  spare = refl;
  checks = refl;
  bounded = λ n b. b;
}
queue_or_new-FoundIn S p addr none e = elim (Bool-cases (S.set_ok addr)) [
  | inl ok ↦
      rw (ok, FoundIn)
        (record {
          there = if_pos (keys_discrete addr addr) refl (some []) (queue_of addr p.table);
          kept = λ fd. ground arith;
          spare = refl;
          checks = refl;
          bounded = λ n b. (ground arith, b);
        })
  | inr bad ↦ rw (bad, FoundIn) tt
]

pub get_connection_queue-FoundIn :
    (S : Sys) (p : Pool) (addr : List ℕ) → FoundIn p addr (get_connection_queue S p addr)
unfolding get_connection_queue
get_connection_queue-FoundIn S p addr = queue_or_new-FoundIn S p addr (queue_of addr p.table) refl

-- A connection that is given back is in one place more, and no queue gets longer than the spare ones.
pub record IsKept (p b : Pool) (fd n : ℕ) : Type 0 where
  pub kept : (x : ℕ) → held b x ≡ held p x + one x fd
  pub bounded : IsBounded n b.table

close_fd-IsKept :
    (p b : Pool) (fd n : ℕ)
    → ((x : ℕ) → held b x ≡ held p x)
    → IsBounded n b.table
    → IsKept p (close_fd fd b) fd n
unfolding count
close_fd-IsKept p b fd n same bounded = record {
  kept = λ x. let s = same x in ground arith;
  bounded = bounded;
}

add_to-IsKept :
    (S : Sys) (p : Pool) (addr : List ℕ) (fd n : ℕ) (o : Option (Pool × List Entry))
    → FoundIn p addr o
    → p.max_spare ≤ n
    → IsBounded n p.table
    → IsKept p (add_to S p addr fd o) fd n
unfolding add_to FoundIn count_in
add_to-IsKept S p addr fd n none f spare bounded = close_fd-IsKept p p fd n (λ x. refl) bounded
add_to-IsKept S p addr fd n (some (b, q)) f spare bounded =
    let closes = close_fd-IsKept p b fd n f.kept (f.bounded n bounded) in
    elim (Bool-cases (ltb (length q) b.max_spare)) [
      | inr full ↦ rw full closes
      | inl room ↦ rw room (elim (Bool-cases (S.push_ok b.closed fd)) [
        | inr bad ↦ rw bad closes
        | inl ok ↦ rw ok (record {
          kept = λ x.
              let entry : Entry = record { fd = fd; last_access = S.now b.closed } in
              let moved = pooled-set_queue x addr q (q ++ entry ∷ []) b.table f.there in
              let counted = count_in-append x q (entry ∷ []) in let same = f.kept x in ground arith;
          bounded = set_queue-IsBounded n addr _ b.table (f.bounded n bounded) (
              let len = length-append q (record { fd = fd; last_access = S.now b.closed } ∷ []) in
              let few : length q < p.max_spare =
                subst (λ (m : ℕ). length q < m) f.spare (ltb→lt (length q) b.max_spare room) in
              ground arith);
        })
      ])
    ]

-- connections_pool_add, on any pool: the connection that is given back is in one place more, idle or
-- closed, each other connection is where it was, and no queue gets longer than a bound that the spare
-- connections keep.
pub pool_add-IsKept :
    (S : Sys) (p : Pool) (addr : List ℕ) (fd n : ℕ)
    → p.max_spare ≤ n
    → IsBounded n p.table
    → IsKept p (pool_add S p addr fd) fd n
unfolding pool_add
pool_add-IsKept S p addr fd n spare bounded =
    add_to-IsKept S p addr fd n (get_connection_queue S p addr)
      (get_connection_queue-FoundIn S p addr) spare bounded
