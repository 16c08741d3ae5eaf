-- ===== src/Arc/Marker.antt =====
-- The ^ (p) marker of src/arc.c stays within the size of the cache.
use libgroupcache.Base.{
  ℕ, ◌^◌, ◌<◌, ◌≤◌, Option, none, some, ℤ, pos, negsuc, zero, suc, arith, leb, Bool-cases,
  Option-cases, inl, inr, ◌||◌, ◌&&◌, if◌then◌else◌,
}
use libgroupcache.Arc.State.{
  HashTable, ListName, mrug, mru, mfu, mfug, is_at, Cache, forget, attach, detach, touch,
}
use libgroupcache.Arc.Move.{
  Fetch, Begun, returned, fetching, is_null, moved_marker, place, move_begin, admit, move_end,
  finish, move,
}

module _ {H : HashTable} where
  abbrev pub Marked : Cache H → Type 0
  Marked a = (a.p ≤ a.c) × (a.c < 2 ^ 64)

  moved_marker-le : (k : ListName) (a : Cache H) → Marked a → moved_marker k a ≤ a.c
  unfolding moved_marker
  moved_marker-le mrug a h = ground arith
  moved_marker-le mfug a h = ground arith
  moved_marker-le _ a h = h.0

  abbrev BegunMarked : Begun H → Type 0
  BegunMarked (returned b) = Marked b
  BegunMarked (fetching b l) = Marked b

  forget-Marked : (o : ℕ) (a : Cache H) → Marked a → Marked (forget o a)
  unfolding forget
  forget-Marked o a h = ground arith

  place-Marked :
      (o : ℕ) (was target : Option ListName) (a : Cache H)
      → Marked a
      → BegunMarked (place o was target a)
  unfolding place attach
  place-Marked o was none a h = forget-Marked o a h
  place-Marked o was (some mrug) a h = h
  place-Marked o was (some mfug) a h = h
  place-Marked o none (some mru) a h = h
  place-Marked o none (some mfu) a h = h
  place-Marked o (some k) (some mru) a h = h
  place-Marked o (some k) (some mfu) a h = h

  touch-Marked : (k : ListName) (o : ℕ) (a : Cache H) → Marked a → Marked (touch k o a)
  unfolding touch
  touch-Marked k o a h = ground arith

  leave-Marked :
      (o : ℕ) (k : ListName) (target : Option ListName) (a : Cache H)
      → Marked a
      → BegunMarked (
          if is_at target k
          then returned (touch k o a)
          else place o
              (some k)
              target
              (detach k o (record a { p = if is_null target then a.p else moved_marker k a })))
  unfolding detach
  leave-Marked o k target a h = elim (Bool-cases (is_at target k)) [
    | inl e ↦ rw e (touch-Marked k o a h)
    | inr e ↦ rw e (place-Marked o (some k) target _ (ground (arith, moved_marker-le k a h)))
  ]

  move_begin-Marked :
      (o : ℕ) (target : Option ListName) (a : Cache H)
      → Marked a
      → BegunMarked (move_begin o target a)
  unfolding move_begin
  move_begin-Marked o target a h =
      elim (Bool-cases ((a.objs o).locked || (is_at target mfu && is_null (a.objs o).state))) [
        | inl e ↦ rw e h
        | inr e ↦ elim (Option-cases (a.objs o).state) [
          | inl s ↦ rw (e, s) (place-Marked o none target a h)
          | inr (k, s) ↦ rw (e, s) (leave-Marked o k target a h)
        ]
      ]

  move_end-Marked :
      (o : ℕ) (l : ListName) (r : ℤ × ℕ) (a : Cache H) → Marked a → Marked (move_end o l r a).0
  unfolding move_end admit attach
  move_end-Marked o l (pos (suc zero), size) a h = forget-Marked o a h
  move_end-Marked o l (negsuc zero, size) a h = forget-Marked o a h
  move_end-Marked o l (_, size) a h = elim (Bool-cases (leb a.c size)) [
    | inl e ↦ rw e (forget-Marked o a h)
    | inr e ↦ rw e h
  ]

  finish-Marked :
      (fetch : Fetch) (o : ℕ) (b : Begun H) → BegunMarked b → Marked (finish fetch o b).0
  unfolding finish
  finish-Marked fetch o (returned c) h = h
  finish-Marked fetch o (fetching c l) h = move_end-Marked o l (fetch o) c h

  -- Any move of an object, whatever its fetch returns, leaves the marker within the size of the
  -- cache, and the size within a word, if they were so before.
  pub move-Marked :
      (fetch : Fetch) (o : ℕ) (target : Option ListName) (a : Cache H)
      → Marked a
      → Marked (move fetch o target a).0
  unfolding move
  move-Marked fetch o target a h =
      finish-Marked fetch o (move_begin o target a) (move_begin-Marked o target a h)
