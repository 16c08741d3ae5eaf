-- ===== src/Counters.antt =====
-- The counters of a node, src/counters.c: a list of names with pointers to the values.
--
-- The tagged list of libhl is a list of pairs; its lookup finds the first with a name, and a callback of
-- its loop that returns -2 removes the item and ends the loop. A pointer is a number, and the memory
-- gives each a value of 64 bits. The lock and other threads are left out.
pub mod Values
mod Tests
use libgroupcache.Base.{
  ℕ, zero, suc, ◌+◌, ◌-◌, ◌%◌, ◌^◌, Bool, true, false, Option, none, some, List, [], ◌∷◌, ◌++◌,
  length, take, ltb, ◌==◌, if◌then◌else◌, ℤ, pos, negsuc, keys_discrete,
}
use libgroupcache.Base.Words.{u64_mod, u32_mod, add64, sub64}

pub record Counters : Type 0 where
  pub lookup : List (List ℕ × ℕ)
  pub memory : ℕ → ℕ

-- shardcache_init_counters
abbrev pub new_counters : (ℕ → ℕ) → Counters
new_counters memory = record { lookup = []; memory = memory }

-- strcmp(a, b) == 0
abbrev pub same_name : List ℕ → List ℕ → Bool
same_name a b = elim (keys_discrete a b) [ yes _ ↦ true | no _ ↦ false ]

-- An int as a uint64_t, and the int that is left of one.
abbrev pub of_int : ℤ → ℕ
of_int (pos n) = n % u64_mod
of_int (negsuc n) = u64_mod - 1 - n

abbrev pub to_int : ℕ → ℤ
to_int v =
    if ltb (v % u32_mod) (2 ^ 31) then pos (v % u32_mod) else negsuc (u32_mod - 1 - v % u32_mod)

-- list_get_tagged_value
unfoldable pub pointer_of : List ℕ → List (List ℕ × ℕ) → Option ℕ
pointer_of name [] = none
pointer_of name ((tag, p) ∷ rest) = if same_name tag name then some p else pointer_of name rest

-- The memory with a value written.
abbrev pub written : ℕ → ℕ → (ℕ → ℕ) → ℕ → ℕ
written p v memory q = if q == p then v else memory q

-- shardcache_counter_add
unfoldable pub counter_add : List ℕ → ℕ → Counters → Counters
counter_add name p c = record c { lookup = c.lookup ++ ((name, p) ∷ []) }

-- shardcache_counter_remove_helper, for each item until it removes one.
unfoldable pub remove_first : List ℕ → List (List ℕ × ℕ) → List (List ℕ × ℕ)
remove_first name [] = []
remove_first name ((tag, p) ∷ rest) =
    let more = remove_first name rest in if same_name tag name then rest else (tag, p) ∷ more

-- shardcache_counter_remove
unfoldable pub counter_remove : List ℕ → Counters → Counters
counter_remove name c = record c { lookup = remove_first name c.lookup }

-- A change of the value of a counter, and the value before it as an int; 0 if there is no counter.
abbrev pub change_at : (ℕ → ℕ) → Option ℕ → Counters → ℤ × Counters
change_at f none c = (pos 0, c)
change_at f (some p) c =
    (to_int (c.memory p), record c { memory = written p (f (c.memory p)) c.memory })

-- shardcache_counter_value_add, shardcache_counter_value_sub
unfoldable pub counter_value_add : List ℕ → ℤ → Counters → ℤ × Counters
counter_value_add name value c =
    change_at (λ v. add64 v (of_int value)) (pointer_of name c.lookup) c

unfoldable pub counter_value_sub : List ℕ → ℤ → Counters → ℤ × Counters
counter_value_sub name value c =
    change_at (λ v. sub64 v (of_int value)) (pointer_of name c.lookup) c

-- The loop of shardcache_counter_value_set, for the rounds given: the value, if the exchange was made.
unfoldable pub set_loop : ℕ → ℤ → ℤ → ℕ → Option ℕ
set_loop zero old value v = none
set_loop (suc rounds) old value v =
    let later = set_loop rounds old value v in
    if v == of_int old then some (of_int value) else later

-- What the call comes to: it returns, or is still in its loop.
pub data Setting : Type 0 where
  returns : ℤ → Counters → Setting
  loops : Setting

abbrev pub set_result : ℕ → Counters → Option ℕ → Setting
set_result p c none = loops
set_result p c (some v) = returns (to_int (c.memory p)) (record c { memory = written p v c.memory })

abbrev pub set_at : ℕ → ℤ → Option ℕ → Counters → Setting
set_at rounds value none c = returns (pos 0) c
set_at rounds value (some p) c =
    set_result p c (set_loop rounds (to_int (c.memory p)) value (c.memory p))

-- shardcache_counter_value_set
unfoldable pub counter_value_set : ℕ → List ℕ → ℤ → Counters → Setting
counter_value_set rounds name value c = set_at rounds value (pointer_of name c.lookup) c

-- shardcache_counter_t
pub record Counter : Type 0 where
  pub name : List ℕ
  pub value : ℕ

-- COUNTERS_ALLOC_CHUNK, and sizeof(counter->name)
abbrev pub alloc_chunk : ℕ
alloc_chunk = 128

abbrev pub name_size : ℕ
name_size = 256

-- snprintf into the name
abbrev pub short_name : List ℕ → List ℕ
short_name tag = take (name_size - 1) tag

-- The loop of shardcache_get_all_counters at the index i, with the room of the array in counters; none is a write
-- outside it.
unfoldable pub all_loop : (ℕ → ℕ) → ℕ → ℕ → List (List ℕ × ℕ) → Option (List Counter)
all_loop memory i room [] = some []
all_loop memory i room ((tag, p) ∷ rest) =
    let room' = if i == room - 1 then room + alloc_chunk else room in
    let more : Option (List Counter) = all_loop memory (i + 1) room' rest in
    let all : Option (List Counter) = elim more [
      | none ↦ none
      | some counters ↦ some (record { name = short_name tag; value = memory p } ∷ counters)
    ] in
    if ltb i room' then all else none

-- shardcache_get_all_counters
unfoldable pub get_all_counters : Counters → Option (List Counter)
get_all_counters c = all_loop c.memory 0 alloc_chunk c.lookup
