-- ===== src/Arc/Balance.antt =====
-- arc_balance of src/arc.c, the size queries and arc_update_resource_size, arc_set_size and
-- arc_set_mode.
pub mod Step
pub mod Loops
pub mod Bounds
pub mod Resize
use libgroupcache.Base.{
  ℕ, zero, suc, ◌+◌, ◌%◌, Bool, true, false, ◌||◌, Option, none, some, last?, length, ltb, ◌==◌,
  if◌then◌else◌, ◌/◌,
}
use libgroupcache.Base.Words.{u32_mod, add64, sub64}
use libgroupcache.Arc.State.{
  HashTable, ListName, mrug, mru, mfu, mfug, is_at, Cache, base_size, set_list, set_object,
}
use libgroupcache.Arc.Move.{Fetch, move}

-- The ghost list of a list; an object of a ghost list is dropped.
abbrev pub ghost_of : ListName → Option ListName
ghost_of mru = some mrug
ghost_of mfu = some mfug
ghost_of _ = none

module _ {H : HashTable} where
  -- arc_size
  abbrev pub resident_size : Cache H → ℕ
  resident_size a = add64 (a.lists mru).size (a.lists mfu).size

  abbrev pub ghost_size : Cache H → ℕ
  ghost_size a = add64 (a.lists mrug).size (a.lists mfug).size

  -- arc_count
  pub arc_count : Cache H → ℕ
  arc_count a =
      add64 (add64 (add64 (a.lists mru).count (a.lists mfu).count) (a.lists mrug).count)
        (a.lists mfug).count

  -- Which list the first loop takes an object from; none ends the loop.
  unfoldable pub choose_resident : Cache H → Option ListName
  choose_resident a =
      if ltb a.c (resident_size a)
      then if ltb a.p (a.lists mru).size
        then some mru
        else if ltb (sub64 a.c a.p) (a.lists mfu).size
        then some mfu
        else none
      else none

  -- And the second loop.
  unfoldable pub choose_ghost : Cache H → Option ListName
  choose_ghost a =
      if ltb a.c (ghost_size a)
      then if ltb a.p (a.lists mfug).size
        then some mfug
        else if ltb (sub64 a.c a.p) (a.lists mrug).size
        then some mrug
        else none
      else none

  -- A loop: the last object of the chosen list goes on, until none is chosen. No result stands for
  -- an object taken from an empty list, and for fuel that ran out.
  unfoldable pub drain : Fetch → (Cache H → Option ListName) → ℕ → Cache H → Option (Cache H)
  drain fetch choose zero a = none
  drain fetch choose (suc fuel) a = elim (choose a) [
    | none ↦ some a
    | some k ↦ elim (last? (a.lists k).items) [
      | none ↦ none
      | some o ↦ drain fetch choose fuel (move fetch o (ghost_of k) a).0
    ]
  ]

  -- One round for each object of the lists, and one for the last test, are enough.
  abbrev pub resident_fuel : Cache H → ℕ
  resident_fuel a = length (a.lists mru).items + length (a.lists mfu).items + 1

  abbrev pub ghost_fuel : Cache H → ℕ
  ghost_fuel a = length (a.lists mrug).items + length (a.lists mfug).items + 1

  unfoldable pub balance : Fetch → Cache H → Option (Cache H)
  balance fetch a =
      if a.needs_balance == 0
      then some a
      else elim (drain fetch choose_resident (resident_fuel a) a) [
        | none ↦ none
        | some b ↦ elim (drain fetch choose_ghost (ghost_fuel b) b) [
          | none ↦ none
          | some c ↦ some (record c { needs_balance = 0 })
        ]
      ]

  -- The object's size is counted anew in its list.
  unfoldable pub resize : ListName → ℕ → ℕ → Cache H → Cache H
  resize k o size a =
      let obj = a.objs o in
      let size' = add64 (add64 (base_size obj) a.cos) size in
      let s = a.lists k in
      set_object o (record obj { size = size' })
        (set_list k (record s { size = add64 (sub64 s.size obj.size) size' }) a)

  -- arc_update_resource_size: only an object among the residents is resized.
  unfoldable pub update_resource_size : ℕ → ℕ → Cache H → Cache H
  update_resource_size o size a =
      let k = (a.objs o).state in
      let b =
        if is_at k mru
        then resize mru o size a
        else if is_at k mfu
        then resize mfu o size a
        else a in
      record b { needs_balance = (b.needs_balance + 1) % u32_mod }

  -- arc_set_size
  unfoldable pub set_size : ℕ → Cache H → Cache H
  set_size size a = record a { c = size / 2 }

  -- arc_set_mode
  pub set_mode : Bool → Cache H → Cache H
  set_mode mode a = record a { mode = mode }
