-- ===== src/Arc/Tests.antt =====
-- Runs of the cache of src/arc.c over a small table, and the theorems at the states they reach.
mod Table
use Prim.Native.Nat.{ℕ}
use native.Mathlib.Decide.{ℕ_discrete}
use libgroupcache.Base.{
  some_inj, subst, sym, ◌≡◌, ◌≢◌, ◌<◌, ◌^◌, refl, true, false, Bool, Option, none, some, List, [],
  ◌∷◌, arith, ℤ, pos, inl, inr, zero, length,
}
use libgroupcache.Base.Words.{add64}
use libgroupcache.Arc.State.{Cache, mru, mfu, mrug, mfug, attach, detach, base_size, touch, forget}
use libgroupcache.Arc.Invariant.{Inv}
use libgroupcache.Arc.Move.{Fetch, move, admit, place, finish}
use libgroupcache.Arc.Move.Inv.{move-Inv}
use libgroupcache.Arc.Balance.{balance, set_size, drain, choose_resident, choose_ghost}
use libgroupcache.Arc.Balance.Bounds.{Balanced, balance-Balanced}
use libgroupcache.Arc.Lookup.{
  lookup, object_create, remove, lookup_hit, lookup_nofetch, lookup_internal, load,
}
use libgroupcache.Arc.Lookup.Sound.{Answers, plus_result, lookup-Answers}
use libgroupcache.Arc.Create.{arc_create, arc_create-Sound}
use libgroupcache.Arc.Marker.{Marked, move-Marked}
use libgroupcache.Arc.Remove.{remove-gone}
use libgroupcache.Arc.Limits.{balance-set_size, lookup_hit-ghost, load_unlisted}
use libgroupcache.Arc.Books.Balance.{Sound}
use libgroupcache.Arc.Books.Create.{plus, object_create-Inv}
use libgroupcache.Arc.Threads.{Threads}
use libgroupcache.Base.{keys_discrete}
use Table.{map_table, map_laws, put_new, cut_equal}

-- Room for 2000 bytes of residents; each value has 1200.
abbrev start : Cache map_table
start = arc_create 4000 0 false

abbrev big : Fetch
big o = (pos 0, 1200)

abbrev key_a : List ℕ
key_a = 97 ∷ []

abbrev key_b : List ℕ
key_b = 98 ∷ []

start-Sound : Sound start (λ x. 0)
start-Sound = (arc_create-Sound (λ k. refl) 4000 0 false).0

lookup-Answers_example : Answers (λ x. 0) (lookup 1 big false key_a start)
lookup-Answers_example = lookup-Answers map_laws big false key_a start (λ x. 0) start-Sound

-- Two objects of which one is moved on to the MFU list.
abbrev one : Cache map_table
one = (move big 0 (some mru) (object_create key_a start).0).0

abbrev two : Cache map_table
two = (move big 1 (some mru) (object_create key_b one).0).0

one-Inv : Inv one
unfolding arc_create
one-Inv = move-Inv big 0 (some mru) _ (object_create-Inv key_a start refl start-Sound.inv)

two-Inv : Inv two
unfolding arc_create move object_create admit
two-Inv = move-Inv big 1 (some mru) _ (object_create-Inv key_b one refl one-Inv)

two_runs : ((two.lists mru).items ≡ 1 ∷ 0 ∷ []) × ((two.lists mru).size ≡ 2608)
unfolding arc_create move object_create admit base_size
two_runs = (refl, refl)

balance-Balanced_example : (b : Cache map_table) × (balance big two ≡ some b) × Balanced two b
unfolding arc_create move object_create admit base_size
balance-Balanced_example =
    balance-Balanced big two two-Inv (λ e. ground arith) (omega arith) (omega arith)

move-Marked_example : Marked one
unfolding arc_create object_create
move-Marked_example = move-Marked big 0 (some mru) (object_create key_a start).0 (omega arith)

-- After a lookup the caller has a reference to object 0, which is in the table.
looked_up : Option (Cache map_table × Option ℕ) → Cache map_table
looked_up none = start
looked_up (some (a, o)) = a

abbrev after : Cache map_table
after = looked_up (lookup 1 big false key_a start)

after-Sound : Sound after (plus 0 (λ x. 0))
unfolding looked_up arc_create lookup_internal move base_size put_new keys_discrete balance admit
    drain choose_resident choose_ghost ℕ_discrete
after-Sound = answered after (lookup-Answers map_laws big false key_a start (λ x. 0) start-Sound)
  where
    answered :
        (b : Cache map_table) → Answers (λ x. 0) (some (b, some 0)) → Sound b (plus 0 (λ x. 0))
    answered b (c, o, e, s) =
        let f = some_inj (b, some 0) (c, o) e in
        subst (λ (t : Cache map_table × Option ℕ). Sound t.0 (plus_result t.1 (λ x. 0))) (sym f) s

remove-gone_example :
    ((remove big key_a after).hash key_a ≡ none)
    × Sound (remove big key_a after) (plus 0 (λ x. 0))
    × (lookup_nofetch big key_a (remove big key_a after) ≡ some (remove big key_a after, none))
unfolding looked_up arc_create lookup_internal move base_size put_new keys_discrete balance admit
    drain choose_resident choose_ghost ℕ_discrete
remove-gone_example =
    remove-gone map_laws big key_a after (plus 0 (λ x. 0))
      (λ o e. subst (λ t. (after.objs t).locked ≡ false) (some_inj 0 o e) refl) after-Sound

-- The limit is set to 500 while 2608 bytes are there.
abbrev small_p : Cache map_table
small_p = record two { p = 3000 }

-- Object 0 has gone to the MRUG list, and is then hit.
abbrev ghosted : Cache map_table
ghosted = record (move big 0 (some mrug) two).0 { needs_balance = 0 }

ghosted-Inv : Inv ghosted
ghosted-Inv =
    let i = move-Inv big 0 (some mrug) two two-Inv in
    record { lists = i.lists; objects = i.objects }

-- Two threads: one fetches object 0 while the other drops it.
abbrev made : Threads map_table
made = record { cache = (object_create key_a start).0; pending = λ o. none }
