-- ===== src/Arc/Move.antt =====
-- arc_move of src/arc.c. The lock is given up while the value is fetched, so the function is two
-- atomic sections, `move_begin` and `move_end`; `move` is the two with nothing in between.
pub mod Inv
use libgroupcache.Base.{
  ℕ, zero, suc, ◌+◌, ◌/◌, ◌%◌, Bool, true, false, ◌&&◌, ◌||◌, Option, none, some, ℤ, pos, negsuc,
  minus_one, ltb, leb, if◌then◌else◌,
}
use libgroupcache.Base.Words.{u32_mod, add64, sub64, max_of, min_of}
use libgroupcache.Arc.State.{
  HashTable, ListName, mrug, mfu, mfug, is_at, Cache, base_size, set_object, attach, detach, touch,
  forget,
}

-- ops->fetch: the return code and the size for an object.
abbrev pub Fetch : Type 0
Fetch = ℕ → ℤ × ℕ

abbrev pub is_null : Option ListName → Bool
is_null none = true
is_null (some k) = false

-- How far a hit in a ghost list moves the marker: the ratio of the two ghost lists, at least 1.
unfoldable pub marker_step : ℕ → ℕ → ℕ
marker_step own other = max_of (if ltb 0 own then other / own else other / 2) 1

-- The ^ (p) marker after an object leaves the given list for another one.
unfoldable pub moved_marker : {H : HashTable} → ListName → Cache H → ℕ
unfolding marker_step
moved_marker mrug a = min_of a.c (add64 a.p (marker_step (a.lists mrug).size (a.lists mfug).size))
moved_marker mfug a =
    let diff = marker_step (a.lists mfug).size (a.lists mrug).size in
    if ltb diff a.p then sub64 a.p diff else 0
moved_marker _ a = a.p

-- What the first section leaves to do: nothing, or to fetch the value for a list.
pub data Begun (H : HashTable) : Type 0 where
  returned : Cache H → Begun H
  fetching : Cache H → ListName → Begun H

module _ {H : HashTable} where
  -- The branches for the new state, where `was` is the list that the object came from.
  unfoldable pub place : ℕ → Option ListName → Option ListName → Cache H → Begun H
  place o was none a = returned (forget o a)
  place o was (some mrug) a =
      returned (attach mrug o (set_object o (record (a.objs o) { async = false }) a))
  place o was (some mfug) a =
      returned (attach mfug o (set_object o (record (a.objs o) { async = false }) a))
  place o none (some l) a = fetching (set_object o (record (a.objs o) { locked = true }) a) l
  place o (some k) (some l) a = returned (attach l o a)

  -- Up to the call of ops->fetch; `target` is NULL or the list to move to.
  unfoldable pub move_begin : ℕ → Option ListName → Cache H → Begun H
  unfolding moved_marker place detach
  move_begin o target a =
      let obj = a.objs o in
      if obj.locked || (is_at target mfu && is_null obj.state) then returned a else elim obj.state [
        | none ↦ place o none target a
        | some k ↦
            if is_at target k
            then returned (touch k o a)
            else place o (some k) target
                (detach k o (record a { p = if is_null target then a.p else moved_marker k a }))
      ]

  -- A fetched value enters the list; the lists are to be balanced.
  unfoldable pub admit : ℕ → ListName → ℕ → Cache H → Cache H
  unfolding attach
  admit o l size a =
      let obj = a.objs o in
      let sized = record obj { size = add64 (add64 (base_size obj) a.cos) size } in
      let b = attach l o (set_object o sized a) in
      let c = record b { needs_balance = (b.needs_balance + 1) % u32_mod } in
      set_object o (record (c.objs o) { locked = false }) c

  -- A value that alone is as large as the cache is not kept.
  unfoldable pub keep : ℕ → ListName → ℕ → Cache H → Cache H × ℤ
  keep o l size a = if leb a.c size then (forget o a, pos 1) else (admit o l size a, pos 0)

  -- The switch on the result of ops->fetch, which is 1, -1 or anything else.
  unfoldable pub move_end : ℕ → ListName → ℤ × ℕ → Cache H → Cache H × ℤ
  unfolding keep
  move_end o l (pos (suc zero), size) a = (forget o a, pos 1)
  move_end o l (negsuc zero, size) a = (forget o a, minus_one)
  move_end o l (_, size) a = keep o l size a

  -- The second section, where there is one.
  unfoldable pub finish : Fetch → ℕ → Begun H → Cache H × ℤ
  unfolding move_end
  finish fetch o (returned b) = (b, pos 0)
  finish fetch o (fetching b l) = move_end o l (fetch o) b

  unfoldable pub move : Fetch → ℕ → Option ListName → Cache H → Cache H × ℤ
  unfolding move_begin finish
  move fetch o target a = finish fetch o (move_begin o target a)
