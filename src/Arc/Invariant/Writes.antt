-- ===== src/Arc/Invariant/Writes.antt =====
-- How writes of the cache's lists and objects keep the invariant of src/arc.c's state.
use mathlib.Core.Path.{fun_ext}
use libgroupcache.Base.{
  ℕ, ◌^◌, ◌<◌, ◌≡◌, refl, true, false, none, some, arith, if◌then◌else◌, update, Bool-cases, inl,
  inr,
}
use libgroupcache.Arc.State.{
  HashTable, ListName, mrug, mru, mfu, mfug, same, is_at, ArcState, Object, Cache, set_list,
  set_object, attach, detach, touch, heads,
}
use libgroupcache.Arc.Invariant.{
  ListInv, ObjectInv, Inv, rewrite-ListInv, frame-ListInv, attach-ListInv, detach-ListInv,
  front-ListInv,
}

pick-ListInv :
    (objs : ℕ → Object) (k l : ListName) (s : ArcState) (f : ListName → ArcState)
    → ListInv objs l s
    → (same k l ≡ false → ListInv objs k (f k))
    → ListInv objs k (if same k l then s else f k)
pick-ListInv objs mrug mrug s f h g = h
pick-ListInv objs mru mru s f h g = h
pick-ListInv objs mfu mfu s f h g = h
pick-ListInv objs mfug mfug s f h g = h
pick-ListInv objs _ _ s f h g = g refl

module _ {H : HashTable} where
  -- One list and one object are written; the object is in no other list before or after.
  pub change-Inv :
      (l : ListName) (s : ArcState) (o : ℕ) (v : Object) (a : Cache H)
      → ListInv (update a.objs o v) l s
      → ((k : ListName)
          → same k l ≡ false
          → (is_at (a.objs o).state k ≡ false) × (is_at v.state k ≡ false))
      → ObjectInv v
      → Inv a
      → Inv (set_object o v (set_list l s a))
  change-Inv l s o v a here away w i = record {
    lists = λ k.
        pick-ListInv (update a.objs o v) k l s a.lists here
          λ h. frame-ListInv a.objs o v k (a.lists k) (away k h).0 (away k h).1 (i.lists k);
    objects = λ x. ground (arith, i.objects x);
  }

  pub set_object-Inv :
      (o : ℕ) (v : Object) (a : Cache H)
      → v.state ≡ (a.objs o).state
      → v.size ≡ (a.objs o).size
      → (v.locked ≡ true → v.state ≡ none)
      → Inv a
      → Inv (set_object o v a)
  set_object-Inv o v a e f g i = record {
    lists = λ k. rewrite-ListInv a.objs o v k (a.lists k) e f (i.lists k);
    objects = λ x. ground (arith, i.objects x, i.objects o);
  }

  pub attach-Inv :
      (l : ListName) (o : ℕ) (a : Cache H)
      → (a.objs o).state ≡ none
      → (a.objs o).locked ≡ false
      → Inv a
      → Inv (attach l o a)
  unfolding attach
  attach-Inv l o a e u i =
      change-Inv l _ o _ a (attach-ListInv a.objs o _ l (a.lists l) e refl (i.lists l))
        (λ k h. ground arith) (ground (arith, i.objects o)) i

  pub detach-Inv :
      (l : ListName) (o : ℕ) (a : Cache H) → (a.objs o).state ≡ some l → Inv a → Inv (detach l o a)
  unfolding detach
  detach-Inv l o a e i =
      change-Inv l _ o _ a
        (detach-ListInv a.objs o _ l (a.lists l) e refl (i.objects o).fits (i.lists l))
        (λ k h. ground arith) (ground (arith, i.objects o)) i

  pub touch-Inv :
      (l : ListName) (o : ℕ) (a : Cache H) → (a.objs o).state ≡ some l → Inv a → Inv (touch l o a)
  unfolding touch
  touch-Inv l o a e i = elim (Bool-cases (heads o (a.lists l).items)) [
    | inl h ↦ rw (h, touch) i
    | inr h ↦
        rw (h, touch)
          (record {
            lists = λ k.
                pick-ListInv a.objs k l _ a.lists
                  (front-ListInv a.objs o l (a.lists l) e (i.lists l)) (λ _. i.lists k);
            objects = i.objects;
          })
  ]

  -- An object in no list may change its size.
  pub resize-Inv :
      (o : ℕ) (v : Object) (a : Cache H)
      → (a.objs o).state ≡ none
      → v.state ≡ none
      → (v.locked ≡ true → v.state ≡ none)
      → v.size < 2 ^ 64
      → Inv a
      → Inv (set_object o v a)
  resize-Inv o v a e f g w i = record {
    lists = λ k. frame-ListInv a.objs o v k (a.lists k) (ground arith) (ground arith) (i.lists k);
    objects = λ x. ground (arith, i.objects x);
  }

  -- The invariant speaks of the lists and the objects only.
  pub Inv-ext :
      (a b : Cache H) → a.lists ≡ b.lists → ((x : ℕ) → a.objs x ≡ b.objs x) → Inv a → Inv b
  Inv-ext a b e f i = record {
    lists = λ l. rw (← e, ← fun_ext f) (i.lists l);
    objects = λ x. rw (← f x) (i.objects x);
  }
