-- ===== src/Counters/Values.antt =====
-- The values of the counters of src/counters.c: all of them, and one that is set.
use libgroupcache.Base.{
  ℕ, zero, suc, ◌+◌, ◌-◌, ◌^◌, ◌≤◌, ◌<◌, ◌≡◌, refl, ap, true, false, none, some, List, [], ◌∷◌, map,
  arith, ltb, ◌==◌, if◌then◌else◌, ℤ, pos,
}
use libgroupcache.Counters.{
  Counters, Counter, of_int, to_int, pointer_of, set_loop, set_result, returns, loops,
  counter_value_set, written, short_name, all_loop, get_all_counters, alloc_chunk,
}

abbrev pub snapshot : (ℕ → ℕ) → List ℕ × ℕ → Counter
snapshot memory (tag, p) = record { name = short_name tag; value = memory p }

all_loop-snapshot :
    (memory : ℕ → ℕ) (i room : ℕ) (items : List (List ℕ × ℕ))
    → i < room
    → all_loop memory i room items ≡ some (map (snapshot memory) items)
unfolding all_loop
all_loop-snapshot memory i room [] le = refl
all_loop-snapshot memory i room ((tag, p) ∷ rest) le =
    let room' = if i == room - 1 then room + alloc_chunk else room in
    let inside : ltb i room' ≡ true = ground arith in
    let more : i + 1 < room' = ground arith in
    rw (all_loop-snapshot memory (i + 1) room' rest more, all_loop) (rw inside refl)

-- shardcache_get_all_counters, for any number of counters: no write is outside the array, and it has each counter in
-- the order in which they were added, with its name, cut to what there is room for, and its value.
pub get_all_counters-snapshot :
    (c : Counters) → get_all_counters c ≡ some (map (snapshot c.memory) c.lookup)
unfolding get_all_counters
get_all_counters-snapshot c = all_loop-snapshot c.memory 0 alloc_chunk c.lookup (omega arith)

set_loop-never :
    (rounds : ℕ) (old value : ℤ) (v : ℕ)
    → (v == of_int old) ≡ false
    → set_loop rounds old value v ≡ none
unfolding set_loop
set_loop-never zero old value v e = refl
set_loop-never (suc rounds) old value v e = rw e (set_loop-never rounds old value v e)

to_int_lost : (v : ℕ) → 2 ^ 31 ≤ v → v < 2 ^ 64 - 2 ^ 31 → (v == of_int (to_int v)) ≡ false
to_int_lost v low high = ground arith

-- shardcache_counter_value_set of a counter whose value is from 2^31 to 2^64 - 2^31 - 1: the call does not return,
-- whatever value is set and however many rounds its loop runs.
pub counter_value_set-loops :
    (rounds : ℕ) (name : List ℕ) (value : ℤ) (c : Counters) (p : ℕ)
    → pointer_of name c.lookup ≡ some p
    → 2 ^ 31 ≤ c.memory p
    → c.memory p < 2 ^ 64 - 2 ^ 31
    → counter_value_set rounds name value c ≡ loops
unfolding counter_value_set
counter_value_set-loops rounds name value c p e low high =
    rw (e, counter_value_set)
      (ap (set_result p c) (
        set_loop-never rounds (to_int (c.memory p)) value (c.memory p)
          (to_int_lost (c.memory p) low high)))

-- shardcache_counter_value_set of a counter whose value is below 2^31: its first round sets the value, and it returns
-- the value before.
pub counter_value_set-returns :
    (rounds : ℕ) (name : List ℕ) (value : ℤ) (c : Counters) (p : ℕ)
    → pointer_of name c.lookup ≡ some p
    → c.memory p < 2 ^ 31
    → counter_value_set (suc rounds) name value c
      ≡ returns (pos (c.memory p)) (record c { memory = written p (of_int value) c.memory })
unfolding counter_value_set set_loop
counter_value_set-returns rounds name value c p e low =
    let small : to_int (c.memory p) ≡ pos (c.memory p) = ground arith in
    let same : (c.memory p == of_int (to_int (c.memory p))) ≡ true = ground arith in
    rw (e, counter_value_set)
      (rw (same, set_loop)
        (ap (λ n. returns n (record c { memory = written p (of_int value) c.memory })) small))
