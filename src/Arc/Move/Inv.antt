-- ===== src/Arc/Move/Inv.antt =====
-- arc_move of src/arc.c keeps the invariant, in both of its atomic sections.
use mathlib.Core.Path.{fun_ext}
use libgroupcache.Base.{
  ℕ, ◌≡◌, refl, true, false, Option, none, some, ℤ, pos, negsuc, zero, suc, arith, leb,
  if◌then◌else◌, Bool-cases, Option-cases, inl, inr, ◌||◌, ◌&&◌,
}
use libgroupcache.Base.Words.{add64}
use libgroupcache.Arc.State.{
  HashTable, Object, ListName, mrug, mru, mfu, mfug, is_at, Cache, set_object, attach, detach,
  touch, forget, base_size,
}
use libgroupcache.Arc.Invariant.{Inv}
use libgroupcache.Arc.Invariant.Writes.{
  set_object-Inv, attach-Inv, resize-Inv, detach-Inv, touch-Inv, Inv-ext,
}
use libgroupcache.Arc.Move.{
  Fetch, admit, Begun, returned, fetching, is_null, place, move_begin, move_end, finish, move,
  moved_marker,
}

module _ {H : HashTable} where
  -- After the first section the invariant holds, and an object that is fetched is out of all lists.
  abbrev pub BegunInv : ℕ → Begun H → Type 0
  BegunInv o (returned b) = Inv b
  BegunInv o (fetching b l) = Inv b × ((b.objs o).state ≡ none) × ((b.objs o).locked ≡ true)

  pub forget-Inv : (o : ℕ) (a : Cache H) → Inv a → Inv (forget o a)
  unfolding forget
  forget-Inv o a i = elim (Bool-cases (H.delete_if_equals a.hash (a.objs o).key o).1) [
    | inl h ↦ rw (h, forget) (record { lists = i.lists; objects = i.objects })
    | inr h ↦ rw (h, forget) (record { lists = i.lists; objects = i.objects })
  ]

  place-Inv :
      (o : ℕ) (was target : Option ListName) (a : Cache H)
      → (a.objs o).state ≡ none
      → (a.objs o).locked ≡ false
      → Inv a
      → BegunInv o (place o was target a)
  unfolding place
  place-Inv o was none a e u i = forget-Inv o a i
  place-Inv o was (some mrug) a e u i =
      attach-Inv mrug o _ (ground arith) (ground arith)
        (set_object-Inv o _ a refl refl (ground arith) i)
  place-Inv o was (some mfug) a e u i =
      attach-Inv mfug o _ (ground arith) (ground arith)
        (set_object-Inv o _ a refl refl (ground arith) i)
  place-Inv o none (some mru) a e u i =
      (set_object-Inv o _ a refl refl (λ _. e) i, ground arith, ground arith)
  place-Inv o none (some mfu) a e u i =
      (set_object-Inv o _ a refl refl (λ _. e) i, ground arith, ground arith)
  place-Inv o (some k) (some mru) a e u i = attach-Inv mru o a e u i
  place-Inv o (some k) (some mfu) a e u i = attach-Inv mfu o a e u i

  -- The first section of a move of an object that is in the list `k`.
  leave-Inv :
      (o : ℕ) (k : ListName) (target : Option ListName) (a : Cache H)
      → (a.objs o).state ≡ some k
      → (a.objs o).locked ≡ false
      → Inv a
      → BegunInv o (
          if is_at target k
          then returned (touch k o a)
          else place o
              (some k)
              target
              (detach k o (record a { p = if is_null target then a.p else moved_marker k a })))
  unfolding detach
  leave-Inv o k target a e u i = elim (Bool-cases (is_at target k)) [
    | inl h ↦ rw h (touch-Inv k o a e i)
    | inr h ↦ rw h (
        place-Inv o (some k) target _ (ground arith) (ground arith)
          (detach-Inv k o _ e (record { lists = i.lists; objects = i.objects })))
  ]

  pub move_begin-Inv :
      (o : ℕ) (target : Option ListName) (a : Cache H) → Inv a → BegunInv o (move_begin o target a)
  unfolding move_begin
  move_begin-Inv o target a i =
      elim (Bool-cases ((a.objs o).locked || (is_at target mfu && is_null (a.objs o).state))) [
        | inl h ↦ rw h i
        | inr h ↦ elim (Option-cases (a.objs o).state) [
          | inl e ↦ rw (h, e) (place-Inv o none target a e (ground arith) i)
          | inr (k, e) ↦ rw (h, e) (leave-Inv o k target a e (ground arith) i)
        ]
      ]

  -- The object was out of all lists and locked; it enters one, and is locked no longer.
  admit-Inv :
      (o : ℕ) (l : ListName) (size : ℕ) (a : Cache H)
      → (a.objs o).state ≡ none
      → Inv a
      → Inv (admit o l size a)
  unfolding admit attach
  admit-Inv o l size a e i =
      Inv-ext (attach l o (set_object o unlocked a)) (admit o l size a)
        (fun_ext (λ k. ground arith)) (λ x. ground arith)
        (attach-Inv l o _ (ground arith) (ground arith)
          (resize-Inv o unlocked a e (ground arith) (ground arith) (omega arith) i))
    where
      sized : Object
      sized = record (a.objs o) { size = add64 (add64 (base_size (a.objs o)) a.cos) size }

      unlocked : Object
      unlocked = record sized { locked = false }

  pub move_end-Inv :
      (o : ℕ) (l : ListName) (r : ℤ × ℕ) (a : Cache H)
      → (a.objs o).state ≡ none
      → Inv a
      → Inv (move_end o l r a).0
  unfolding move_end
  move_end-Inv o l (pos (suc zero), size) a e i = forget-Inv o a i
  move_end-Inv o l (negsuc zero, size) a e i = forget-Inv o a i
  move_end-Inv o l (_, size) a e i = elim (Bool-cases (leb a.c size)) [
    | inl h ↦ rw h (forget-Inv o a i)
    | inr h ↦ rw h (admit-Inv o l size a e i)
  ]

  finish-Inv : (fetch : Fetch) (o : ℕ) (b : Begun H) → BegunInv o b → Inv (finish fetch o b).0
  unfolding finish
  finish-Inv fetch o (returned c) j = j
  finish-Inv fetch o (fetching c l) j = move_end-Inv o l (fetch o) c j.1 j.0

  -- Every move keeps the invariant, whatever the fetch returns.
  pub move-Inv :
      (fetch : Fetch) (o : ℕ) (target : Option ListName) (a : Cache H)
      → Inv a
      → Inv (move fetch o target a).0
  unfolding move
  move-Inv fetch o target a i =
      finish-Inv fetch o (move_begin o target a) (move_begin-Inv o target a i)
