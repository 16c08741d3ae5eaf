-- ===== src/Counters/Tests.antt =====
-- The counters of src/counters.c on small inputs.
use libgroupcache.Base.{ℕ, ◌≡◌, refl, some, List, [], ◌∷◌, pos, keys_discrete}
use native.Mathlib.Decide.{ℕ_discrete}
use libgroupcache.Counters.{
  Counters, new_counters, pointer_of, counter_add, remove_first, counter_remove, counter_value_add,
  all_loop, get_all_counters,
}

abbrev gets : List ℕ
gets = 103 ∷ []

abbrev sets : List ℕ
sets = 115 ∷ []

abbrev two_counters : Counters
two_counters = counter_add sets 1 (counter_add gets 0 (new_counters (λ p. p)))

-- A counter that is added to, and one that is removed.
counted :
    get_all_counters (counter_remove gets (counter_value_add sets (pos 5) two_counters).1)
    ≡ some (record { name = sets; value = 6 } ∷ [])
unfolding get_all_counters all_loop counter_remove remove_first counter_value_add pointer_of
    counter_add keys_discrete ℕ_discrete
counted = refl
