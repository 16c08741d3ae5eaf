-- ===== src/Arc/Balance/Resize.antt =====
-- arc_update_resource_size of src/arc.c keeps the sizes of the lists true.
use libgroupcache.Base.{
  ℕ, ◌+◌, ◌^◌, ◌<◌, ◌≡◌, true, some, List, [], ◌∷◌, arith, elem, Distinct, update, Bool-cases, inl,
  inr,
}
use libgroupcache.Base.Words.{add64, sub64}
use libgroupcache.Arc.State.{HashTable, ListName, mru, mfu, is_at, ArcState, Object, Cache}
use libgroupcache.Arc.Invariant.{ListInv, Inv, total, total-update}
use libgroupcache.Arc.Invariant.Writes.{change-Inv}
use libgroupcache.Arc.Balance.{resize, update_resource_size}

total_resize :
    (objs : ℕ → Object) (o : ℕ) (v : Object) (xs : List ℕ)
    → Distinct xs
    → elem o xs ≡ true
    → total (update objs o v) xs + (objs o).size ≡ total objs xs + v.size
unfolding total
total_resize objs o v [] d h = ground arith
total_resize objs o v (x ∷ xs) d h =
    ground (arith, total_resize objs o v xs d.1, total-update objs o v xs)

resize-ListInv :
    (objs : ℕ → Object) (o : ℕ) (v : Object) (l : ListName) (s : ArcState)
    → (objs o).state ≡ some l
    → v.state ≡ some l
    → (objs o).size < 2 ^ 64
    → ListInv objs l s
    → ListInv (update objs o v) l (record s { size = add64 (sub64 s.size (objs o).size) v.size })
resize-ListInv objs o v l s e f b i = record {
  distinct = i.distinct;
  members = λ x. ground (arith, i.members x);
  sized = ground (arith, i.sized, i.members o, total_resize objs o v s.items i.distinct);
  counted = i.counted;
}

module _ {H : HashTable} where
  resize-Inv :
      (k : ListName) (o size : ℕ) (a : Cache H)
      → (a.objs o).state ≡ some k
      → Inv a
      → Inv (resize k o size a)
  unfolding resize
  resize-Inv k o size a e i =
      change-Inv k _ o _ a
        (resize-ListInv a.objs o _ k (a.lists k) e e (i.objects o).fits (i.lists k))
        (λ j h. ground arith) (ground (arith, i.objects o)) i

  Inv-pending : (n : ℕ) (a : Cache H) → Inv a → Inv (record a { needs_balance = n })
  Inv-pending n a i = record { lists = i.lists; objects = i.objects }

  pub update_resource_size-Inv :
      (o size : ℕ) (a : Cache H) → Inv a → Inv (update_resource_size o size a)
  unfolding update_resource_size
  update_resource_size-Inv o size a i = elim (Bool-cases (is_at (a.objs o).state mru)) [
    | inl h ↦ rw h (Inv-pending _ _ (resize-Inv mru o size a (ground arith) i))
    | inr h ↦ elim (Bool-cases (is_at (a.objs o).state mfu)) [
      | inl g ↦ rw (h, g) (Inv-pending _ _ (resize-Inv mfu o size a (ground arith) i))
      | inr g ↦ rw (h, g) (Inv-pending _ a i)
    ]
  ]

  -- It changes no object's list or lock.
  pub update_resource_size_keeps :
      (o size x : ℕ) (a : Cache H)
      → (((update_resource_size o size a).objs x).state ≡ (a.objs x).state)
        × (((update_resource_size o size a).objs x).locked ≡ (a.objs x).locked)
  unfolding update_resource_size resize
  update_resource_size_keeps o size x a = ground arith

  pub update_resource_size-next :
      (o size : ℕ) (a : Cache H) → (update_resource_size o size a).next ≡ a.next
  unfolding update_resource_size resize
  update_resource_size-next o size a = ground arith
