-- ===== src/Arc/Balance/Step.antt =====
-- One round of a loop of arc_balance (src/arc.c), and the rule for the loops.
use libgroupcache.Base.{
  ℕ, ◌≢◌, Bool-cases, ◌<◌, ◌≡◌, refl, false, ◌++◌, some, List, [], ◌∷◌, arith, last?, erase,
  elem-last?, Distinct, inl, inr,
}
use libgroupcache.Arc.State.{
  HashTable, ListName, same, is_at, mrug, mru, mfu, mfug, Cache, set_object, attach, detach, forget,
}
use libgroupcache.Arc.Invariant.{Inv, total}
use libgroupcache.Arc.Move.{Fetch, move, move_begin, returned}
use libgroupcache.Arc.Move.Inv.{move-Inv}
use libgroupcache.Arc.Balance.{ghost_of}

module _ {H : HashTable} where
  -- What a move to the ghost list, or out of the cache, does to an object of the list `k`.
  unfoldable pub evicted : ListName → ℕ → Cache H → Cache H
  evicted mru o a =
      let b = detach mru o a in attach mrug o (set_object o (record (b.objs o) { async = false }) b)
  evicted mfu o a =
      let b = detach mfu o a in attach mfug o (set_object o (record (b.objs o) { async = false }) b)
  evicted mrug o a = forget o (detach mrug o a)
  evicted mfug o a = forget o (detach mfug o a)

  begin-evicted :
      (k : ListName) (o : ℕ) (a : Cache H)
      → (a.objs o).state ≡ some k
      → (a.objs o).locked ≡ false
      → move_begin o (ghost_of k) a ≡ returned (evicted k o a)
  unfolding move_begin evicted
  begin-evicted mru o a e u = ground arith
  begin-evicted mfu o a e u = ground arith
  begin-evicted mrug o a e u = ground arith
  begin-evicted mfug o a e u = ground arith

  move-evicted :
      (fetch : Fetch) (k : ListName) (o : ℕ) (a : Cache H)
      → (a.objs o).state ≡ some k
      → (a.objs o).locked ≡ false
      → (move fetch o (ghost_of k) a).0 ≡ evicted k o a
  unfolding move
  move-evicted fetch k o a e u = rw (begin-evicted k o a e u, move)

-- The last member of a list without repetition is what `erase` takes away.
pub erase-last? :
    (o : ℕ) (xs : List ℕ) → Distinct xs → last? xs ≡ some o → erase o xs ++ o ∷ [] ≡ xs
erase-last? o [] d h = ground arith
erase-last? o (x ∷ []) d h = ground arith
erase-last? o (x ∷ y ∷ ys) d h = ground (arith, erase-last? o (y ∷ ys), elem-last? o (y ∷ ys))

last-some : (xs : List ℕ) → xs ≢ [] → (o : ℕ) × (last? xs ≡ some o)
last-some [] h = absurd (h refl)
last-some (x ∷ []) h = (x, refl)
last-some (x ∷ y ∷ ys) h = last-some (y ∷ ys) (λ e. ground arith)

-- What a round does to the cache: the last object of `k` is gone from it, and only the ghost list
-- of `k` changes besides.
pub record Round {H : HashTable} (k : ListName) (a b : Cache H) : Type 0 where
  pub inv : Inv b
  pub same_c : b.c ≡ a.c
  pub same_p : b.p ≡ a.p
  pub victim : ℕ
  pub tail : (b.lists k).items ++ victim ∷ [] ≡ (a.lists k).items
  pub others :
      (j : ListName) → same j k ≡ false → is_at (ghost_of k) j ≡ false → b.lists j ≡ a.lists j

module _ {H : HashTable} where
  forget_keeps :
      (o : ℕ) (a : Cache H)
      → ((forget o a).lists ≡ a.lists) × ((forget o a).c ≡ a.c) × ((forget o a).p ≡ a.p)
  unfolding forget
  forget_keeps o a = elim (Bool-cases (H.delete_if_equals a.hash (a.objs o).key o).1) [
    | inl h ↦ rw (h, forget) (refl, refl, refl)
    | inr h ↦ rw (h, forget) (refl, refl, refl)
  ]

  evicted-c : (k : ListName) (o : ℕ) (a : Cache H) → (evicted k o a).c ≡ a.c
  unfolding evicted attach detach
  evicted-c mru o a = refl
  evicted-c mfu o a = refl
  evicted-c mrug o a = (forget_keeps o _).1
  evicted-c mfug o a = (forget_keeps o _).1

  evicted-p : (k : ListName) (o : ℕ) (a : Cache H) → (evicted k o a).p ≡ a.p
  unfolding evicted attach detach
  evicted-p mru o a = refl
  evicted-p mfu o a = refl
  evicted-p mrug o a = (forget_keeps o _).2
  evicted-p mfug o a = (forget_keeps o _).2

  evicted-items :
      (k : ListName) (o : ℕ) (a : Cache H)
      → ((evicted k o a).lists k).items ≡ erase o (a.lists k).items
  unfolding evicted attach detach
  evicted-items mru o a = refl
  evicted-items mfu o a = refl
  evicted-items mrug o a = rw (forget_keeps o (detach mrug o a)).0
  evicted-items mfug o a = rw (forget_keeps o (detach mfug o a)).0

  evicted-others :
      (k j : ListName) (o : ℕ) (a : Cache H)
      → same j k ≡ false
      → is_at (ghost_of k) j ≡ false
      → (evicted k o a).lists j ≡ a.lists j
  unfolding evicted attach detach
  evicted-others mru j o a h g = ground arith
  evicted-others mfu j o a h g = ground arith
  evicted-others mrug j o a h g = rw (forget_keeps o (detach mrug o a)).0 (ground arith)
  evicted-others mfug j o a h g = rw (forget_keeps o (detach mfug o a)).0 (ground arith)

  -- An object at the end of a list is in that list, and so is not being fetched.
  pub move-Round :
      (fetch : Fetch) (k : ListName) (o : ℕ) (a : Cache H)
      → Inv a
      → last? (a.lists k).items ≡ some o
      → Round k a (move fetch o (ghost_of k) a).0
  move-Round fetch k o a i h = record {
    inv = move-Inv fetch o (ghost_of k) a i;
    same_c = rw moved (evicted-c k o a);
    same_p = rw moved (evicted-p k o a);
    victim = o;
    tail = rw (moved, evicted-items k o a) (erase-last? o (a.lists k).items (i.lists k).distinct h);
    others = λ j n g. rw moved (evicted-others k j o a n g);
  }
    where
      inside : (a.objs o).state ≡ some k
      inside = ground (arith, (i.lists k).members o, elem-last? o (a.lists k).items h)

      moved : (move fetch o (ghost_of k) a).0 ≡ evicted k o a
      moved = move-evicted fetch k o a inside (ground (arith, inside, (i.objects o).fetched))

  -- A list that holds bytes has a last object.
  pub last_of_size :
      (k : ListName) (a : Cache H)
      → Inv a
      → 0 < (a.lists k).size
      → (o : ℕ) × (last? (a.lists k).items ≡ some o)
  unfolding total
  last_of_size k a i h = last-some (a.lists k).items (λ e. ground (arith, (i.lists k).sized, e))
