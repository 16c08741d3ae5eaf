-- ===== src/Pool/Take.antt =====
-- Where connections_pool_get of src/connections_pool.c takes a connection from.
use libgroupcache.Base.{
  count, ℕ, ◌+◌, ◌≤◌, Bool, true, false, Bool-cases, Option, none, some, List, [], ◌∷◌, length, ◌≡◌,
  refl, ◌∙◌, inl, inr, arith,
}
use libgroupcache.Node.State.{done}
use libgroupcache.Pool.{
  Entry, Connected, connected, no_files, refused, Sys, Pool, set_queue, get_connection_queue,
  take_entry, queue_empty, empty_all, connect_new, found_or_new, get_from, pool_get,
}
use libgroupcache.Pool.Books.{
  count_in, pooled, held, returned, pooled-set_queue, IsBounded, set_queue-IsBounded,
  queue_of-IsBounded, FoundIn, get_connection_queue-FoundIn,
}

-- The loop over the entries of a queue, which the pool does not check.
take_entry-returns :
    (S : Sys) (p : Pool) (entries : List Entry) (closed : List ℕ)
    → p.check ≡ false
    → (found : Option ℕ) × (left : List Entry) × (closed' : List ℕ) × (take_entry S p entries closed
        ≡ done (found, left, closed'))
      × ((x : ℕ)
          → returned found x + (count_in x left + count x closed')
            ≡ count_in x entries + count x closed)
      × (length left ≤ length entries)
unfolding take_entry count count_in
take_entry-returns S p [] closed plain = (none, [], closed, refl, λ x. ground arith, ground arith)
take_entry-returns S p (e ∷ entries) closed plain = elim (Bool-cases (S.has_flags closed e.fd)) [
  | inr bad ↦
      let (found, left, closed', q, same, few) =
        take_entry-returns S p entries (e.fd ∷ closed) plain in
      (found, left, closed', rw bad q, λ x. let s = same x in ground arith, ground arith)
  | inl ok ↦ (some e.fd, entries, closed, rw (ok, plain) refl, λ x. ground arith, ground arith)
]

queue_empty-count :
    (x : ℕ) (q : List Entry) (closed : List ℕ)
    → count x (queue_empty q closed) ≡ count_in x q + count x closed
unfolding queue_empty count count_in
queue_empty-count x [] closed = ground arith
queue_empty-count x (e ∷ q) closed = let c = queue_empty-count x q (e.fd ∷ closed) in ground arith

empty_all-held :
    (x : ℕ) (t : List (List ℕ × List Entry)) (closed : List ℕ)
    → pooled x (empty_all t closed).0 + count x (empty_all t closed).1 ≡ pooled x t + count x closed
unfolding empty_all pooled count_in
empty_all-held x [] closed = ground arith
empty_all-held x ((a, q) ∷ rest) closed =
    let c = empty_all-held x rest (queue_empty q closed) in
    let d = queue_empty-count x q closed in ground arith

empty_all-IsBounded :
    (n : ℕ) (t : List (List ℕ × List Entry)) (closed : List ℕ) → IsBounded n (empty_all t closed).0
unfolding empty_all
empty_all-IsBounded n [] closed = tt
empty_all-IsBounded n ((a, q) ∷ rest) closed =
    (ground arith, empty_all-IsBounded n rest (queue_empty q closed))

-- A new connection to an address, if there is one.
unfoldable pub Made : Sys → List ℕ → Option ℕ → Type 0
Made S addr none = Unit {0}
Made S addr (some fd) =
    (closed : List ℕ) × (again : Bool) × (S.connect closed addr again ≡ connected fd)

-- What is returned was in the pool, or is new; all else is where it was, or closed.
pub record IsTaken (S : Sys) (p : Pool) (addr : List ℕ) (n : ℕ) (b : Pool) (r : Option ℕ)
    : Type 0 where
  pub fresh : Option ℕ
  pub made : Made S addr fresh
  pub kept : (x : ℕ) → held b x + returned r x ≡ held p x + returned fresh x
  pub bounded : IsBounded n b.table

again-Made :
    (S : Sys) (addr closed : List ℕ) (c : Connected)
    → S.connect closed addr true ≡ c
    → Made S addr (elim c [ connected fd ↦ some fd | no_files ↦ none | refused ↦ none ])
unfolding Made
again-Made S addr closed (connected fd) e = (closed, true, e)
again-Made S addr closed no_files e = tt
again-Made S addr closed refused e = tt

connect_new-IsTaken :
    (S : Sys) (p : Pool) (addr : List ℕ) (n : ℕ) (closed : List ℕ) (c : Connected)
    → S.connect closed addr false ≡ c
    → IsBounded n p.table
    → IsTaken S p addr n (connect_new S p addr c).0 (connect_new S p addr c).1
unfolding connect_new Made
connect_new-IsTaken S p addr n closed (connected fd) e b = record {
  fresh = some fd;
  made = (closed, false, e);
  kept = λ x. refl;
  bounded = b;
}
connect_new-IsTaken S p addr n closed refused e b = record {
  fresh = none;
  made = tt;
  kept = λ x. refl;
  bounded = b;
}
connect_new-IsTaken S p addr n closed no_files e b =
    let t = empty_all p.table p.closed in
    record {
      fresh = _;
      made = again-Made S addr t.1 _ refl;
      kept = λ x. let c = empty_all-held x p.table p.closed in ground arith;
      bounded = empty_all-IsBounded n p.table p.closed;
    }

found_or_new-IsTaken :
    (S : Sys) (p c : Pool) (addr : List ℕ) (n : ℕ) (found : Option ℕ)
    → ((x : ℕ) → returned found x + held c x ≡ held p x)
    → IsBounded n c.table
    → IsTaken S p addr n (found_or_new S c addr found).0 (found_or_new S c addr found).1
unfolding found_or_new Made
found_or_new-IsTaken S p c addr n (some fd) same b = record {
  fresh = none;
  made = tt;
  kept = λ x. let s = same x in ground arith;
  bounded = b;
}
found_or_new-IsTaken S p c addr n none same b =
    let i = connect_new-IsTaken S c addr n c.closed (S.connect c.closed addr false) refl b in
    record {
      fresh = i.fresh;
      made = i.made;
      kept = λ x. let s = same x in let k = i.kept x in ground arith;
      bounded = i.bounded;
    }

get_from-IsTaken :
    (S : Sys) (p : Pool) (addr : List ℕ) (n : ℕ) (o : Option (Pool × List Entry))
    → FoundIn p addr o
    → p.check ≡ false
    → IsBounded n p.table
    → (b : Pool) × (r : Option ℕ) × (get_from S p addr o ≡ done (b, r)) × IsTaken S p addr n b r
unfolding get_from FoundIn Made
get_from-IsTaken S p addr n none f plain bounded =
    (p, none, refl, record { fresh = none; made = tt; kept = λ x. refl; bounded = bounded })
get_from-IsTaken S p addr n (some (b, q)) f plain bounded =
    let (found, left, closed, e, same, few) =
      take_entry-returns S b q b.closed (f.checks ∙ plain) in
    let c : Pool = record b { table = set_queue addr left b.table; closed = closed } in
    let i =
      found_or_new-IsTaken S p c addr n found
        (λ x.
          let moved = pooled-set_queue x addr q left b.table f.there in
          let s = same x in let k = f.kept x in ground arith)
        (set_queue-IsBounded n addr left b.table (f.bounded n bounded) (
          let short = queue_of-IsBounded n addr q b.table (f.bounded n bounded) f.there in
          omega arith)) in
    ((found_or_new S c addr found).0, (found_or_new S c addr found).1, rw e refl, i)

-- connections_pool_get, on a pool that does not check its connections, as a new one does not: it
-- returns; the connection that it returns was idle in the pool, in one place more than after, or is
-- new from connect_to_peer; each other connection is idle or closed as often as it was; and no queue
-- gets longer than a bound that all keep.
pub pool_get-IsTaken :
    (S : Sys) (p : Pool) (addr : List ℕ) (n : ℕ)
    → p.check ≡ false
    → IsBounded n p.table
    → (b : Pool) × (r : Option ℕ) × (pool_get S p addr ≡ done (b, r)) × IsTaken S p addr n b r
unfolding pool_get
pool_get-IsTaken S p addr n plain bounded =
    get_from-IsTaken S p addr n (get_connection_queue S p addr)
      (get_connection_queue-FoundIn S p addr) plain bounded
