-- ===== src/Arc/Books/Kept.antt =====
-- What a move of an object (arc_move, src/arc.c) leaves alone: other objects, all keys, and the
-- table and the references but for the object's own entry.
use libgroupcache.Base.{
  ℕ, update, ◌≡◌, ◌≢◌, refl, Option, none, some, ◌∷◌, arith, if◌then◌else◌, ◌⊎◌, inl, inr,
  Bool-cases, Option-cases, ◌∙◌, ◌||◌, ◌&&◌, ℤ, pos, negsuc, zero, suc, leb,
}
use libgroupcache.Arc.State.{
  HashTable, ListName, mrug, mru, mfu, mfug, is_at, ArcState, Object, heads, set_object, release,
  Cache, attach, detach, touch, forget,
}
use libgroupcache.Arc.Move.{
  Fetch, Begun, returned, fetching, is_null, place, move_begin, admit, move_end, finish, move,
}

module _ {H : HashTable} where
  -- The table and the trace are as before, or as `forget` leaves them.
  abbrev pub Struck : ℕ → Cache H → Cache H → Type 0
  Struck o a b =
      let r = H.delete_if_equals a.hash (a.objs o).key o in
      (b.hash ≡ r.0) × (b.refs ≡ (if r.1 then release o ∷ a.refs else a.refs))

  pub record Kept (o : ℕ) (a b : Cache H) : Type 0 where
    pub keys : (x : ℕ) → (b.objs x).key ≡ (a.objs x).key
    pub others : (x : ℕ) → x ≢ o → b.objs x ≡ a.objs x
    pub same_next : b.next ≡ a.next
    pub same_c : b.c ≡ a.c
    pub entry : ((b.hash ≡ a.hash) × (b.refs ≡ a.refs)) ⊎ Struck o a b

  -- One change that leaves the table alone, and then another.
  pub Kept-then :
      (o : ℕ) (a b c : Cache H)
      → Kept o a b
      → (b.hash ≡ a.hash) × (b.refs ≡ a.refs)
      → Kept o b c
      → Kept o a c
  Kept-then o a b c k (e, f) l = record {
    keys = λ x. l.keys x ∙ k.keys x;
    others = λ x n. l.others x n ∙ k.others x n;
    same_next = l.same_next ∙ k.same_next;
    same_c = l.same_c ∙ k.same_c;
    entry = elim (l.entry) [
      | inl (g, h) ↦ inl (g ∙ e, h ∙ f)
      | inr s ↦ inr (rw (← e, ← f, ← k.keys o) s)
    ];
  }

  forget-Kept : (o : ℕ) (a : Cache H) → Kept o a (forget o a)
  unfolding forget
  forget-Kept o a = elim (Bool-cases (H.delete_if_equals a.hash (a.objs o).key o).1) [
    | inl h ↦
        rw (h, forget)
          (record {
            keys = λ x. refl;
            others = λ x n. refl;
            same_next = refl;
            same_c = refl;
            entry = inr (refl, rw h);
          })
    | inr h ↦
        rw (h, forget)
          (record {
            keys = λ x. refl;
            others = λ x n. refl;
            same_next = refl;
            same_c = refl;
            entry = inr (refl, rw h);
          })
  ]

  -- A write to the lists and to the object that is no business of the table.
  abbrev Aside : ℕ → Cache H → Cache H → Type 0
  Aside o a b = Kept o a b × (b.hash ≡ a.hash) × (b.refs ≡ a.refs)

  write-Aside :
      (o : ℕ) (v : Object) (f : ListName → ArcState) (n : ℕ) (a : Cache H)
      → v.key ≡ (a.objs o).key
      → Aside o a (record a { lists = f; objs = update a.objs o v; needs_balance = n })
  write-Aside o v f n a e = (
    record {
      keys = λ x. ground arith;
      others = λ x d. ground arith;
      same_next = refl;
      same_c = refl;
      entry = inl (refl, refl);
    },
    refl,
    refl,
  )

  marker-Aside : (o p : ℕ) (a : Cache H) → Aside o a (record a { p = p })
  marker-Aside o p a = (
    record {
      keys = λ x. refl;
      others = λ x d. refl;
      same_next = refl;
      same_c = refl;
      entry = inl (refl, refl);
    },
    refl,
    refl,
  )

  Aside-then : (o : ℕ) (a b c : Cache H) → Aside o a b → Kept o b c → Kept o a c
  Aside-then o a b c (k, e, f) l = Kept-then o a b c k (e, f) l

  attach-Kept : (l : ListName) (o : ℕ) (a : Cache H) → Kept o a (attach l o a)
  unfolding attach
  attach-Kept l o a = (write-Aside o _ _ a.needs_balance a refl).0

  detach-Aside : (l : ListName) (o : ℕ) (a : Cache H) → Aside o a (detach l o a)
  unfolding detach
  detach-Aside l o a = write-Aside o _ _ a.needs_balance a refl

  set_object-Aside :
      (o : ℕ) (v : Object) (a : Cache H) → v.key ≡ (a.objs o).key → Aside o a (set_object o v a)
  set_object-Aside o v a e = write-Aside o v a.lists a.needs_balance a e

  touch-Kept : (l : ListName) (o : ℕ) (a : Cache H) → Kept o a (touch l o a)
  unfolding touch
  touch-Kept l o a = elim (Bool-cases (heads o (a.lists l).items)) [
    | inl h ↦ rw (h, touch) (marker-Aside o a.p a).0
    | inr h ↦
        rw (h, touch)
          (record {
            keys = λ x. refl;
            others = λ x d. refl;
            same_next = refl;
            same_c = refl;
            entry = inl (refl, refl);
          })
  ]

  admit-Kept : (o : ℕ) (l : ListName) (size : ℕ) (a : Cache H) → Kept o a (admit o l size a)
  unfolding admit attach
  admit-Kept o l size a =
      Aside-then o a _ _ (set_object-Aside o _ a refl)
        (Aside-then o _ _ _ (write-Aside o _ _ _ _ refl) (set_object-Aside o _ _ refl).0)

  -- After the first section: done, or the fetch is to come and the table is as it was.
  abbrev pub BegunKept : ℕ → Cache H → Begun H → Type 0
  BegunKept o a (returned b) = Kept o a b
  BegunKept o a (fetching b l) = Aside o a b

  place-Kept :
      (o : ℕ) (was target : Option ListName) (a : Cache H) → BegunKept o a (place o was target a)
  unfolding place
  place-Kept o was none a = forget-Kept o a
  place-Kept o was (some mrug) a =
      Aside-then o a _ _ (set_object-Aside o _ a refl) (attach-Kept mrug o _)
  place-Kept o was (some mfug) a =
      Aside-then o a _ _ (set_object-Aside o _ a refl) (attach-Kept mfug o _)
  place-Kept o none (some mru) a = set_object-Aside o _ a refl
  place-Kept o none (some mfu) a = set_object-Aside o _ a refl
  place-Kept o (some k) (some mru) a = attach-Kept mru o a
  place-Kept o (some k) (some mfu) a = attach-Kept mfu o a

  -- A change beside the table before the first section's last part.
  Aside-BegunKept :
      (o : ℕ) (a b : Cache H) (r : Begun H) → Aside o a b → BegunKept o b r → BegunKept o a r
  Aside-BegunKept o a b (returned c) s k = Aside-then o a b c s k
  Aside-BegunKept o a b (fetching c l) s (k, e, f) = (Aside-then o a b c s k, e ∙ s.1, f ∙ s.2)

  leave-Kept :
      (o : ℕ) (k : ListName) (target : Option ListName) (p : ℕ) (a : Cache H)
      → BegunKept o a (
          if is_at target k
          then returned (touch k o a)
          else place o (some k) target (detach k o (record a { p = p })))
  leave-Kept o k target p a = elim (Bool-cases (is_at target k)) [
    | inl h ↦ rw h (touch-Kept k o a)
    | inr h ↦ rw h (
        Aside-BegunKept o a (record a { p = p }) _ (marker-Aside o p a)
          (Aside-BegunKept o _ _ _ (detach-Aside k o _) (place-Kept o (some k) target _)))
  ]

  pub move_begin-Kept :
      (o : ℕ) (target : Option ListName) (a : Cache H) → BegunKept o a (move_begin o target a)
  unfolding move_begin
  move_begin-Kept o target a =
      elim (Bool-cases ((a.objs o).locked || (is_at target mfu && is_null (a.objs o).state))) [
        | inl h ↦ rw h (marker-Aside o a.p a).0
        | inr h ↦ elim (Option-cases (a.objs o).state) [
          | inl e ↦ rw (h, e) (place-Kept o none target a)
          | inr (k, e) ↦ rw (h, e) (leave-Kept o k target _ a)
        ]
      ]

  pub move_end-Kept :
      (o : ℕ) (l : ListName) (r : ℤ × ℕ) (a : Cache H) → Kept o a (move_end o l r a).0
  unfolding move_end
  move_end-Kept o l (pos (suc zero), size) a = forget-Kept o a
  move_end-Kept o l (negsuc zero, size) a = forget-Kept o a
  move_end-Kept o l (_, size) a = elim (Bool-cases (leb a.c size)) [
    | inl h ↦ rw h (forget-Kept o a)
    | inr h ↦ rw h (admit-Kept o l size a)
  ]

  finish-Kept :
      (fetch : Fetch) (o : ℕ) (a : Cache H) (b : Begun H)
      → BegunKept o a b
      → Kept o a (finish fetch o b).0
  unfolding finish
  finish-Kept fetch o a (returned b) k = k
  finish-Kept fetch o a (fetching b l) s = Aside-then o a b _ s (move_end-Kept o l (fetch o) b)

  pub move-Kept :
      (fetch : Fetch) (o : ℕ) (target : Option ListName) (a : Cache H)
      → Kept o a (move fetch o target a).0
  unfolding move
  move-Kept fetch o target a =
      finish-Kept fetch o a (move_begin o target a) (move_begin-Kept o target a)
