-- ===== src/Arc/Balance/Loops.antt =====
-- The loops of arc_balance (src/arc.c) end, and only cut off tails of the lists they take from.
use libgroupcache.Base.{
  ℕ, zero, suc, ◌+◌, ◌<◌, ◌≡◌, refl, sym, ◌∙◌, ◌⊎◌, subst, ap, false, ◌++◌, append_assoc,
  append-nil, Option, none, some, List, [], ◌∷◌, arith, length, length-append, Option-cases, inl,
  inr,
}
use libgroupcache.Arc.State.{HashTable, ListName, same, is_at, Cache}
use libgroupcache.Arc.Invariant.{Inv}
use libgroupcache.Arc.Move.{Fetch}
use libgroupcache.Arc.Balance.{ghost_of, drain}
use libgroupcache.Arc.Balance.Step.{Round, move-Round, last_of_size}

-- `xs` is what is left of `ys` after its tail was cut.
abbrev pub IsPrefix : List ℕ → List ℕ → Type 0
IsPrefix xs ys = (cut : List ℕ) × (xs ++ cut ≡ ys)

IsPrefix-cut :
    (xs : List ℕ) (o : ℕ) (ys zs : List ℕ) → xs ++ o ∷ [] ≡ ys → IsPrefix ys zs → IsPrefix xs zs
IsPrefix-cut xs o ys zs e (cut, f) =
    (o ∷ cut, sym (append_assoc xs (o ∷ []) cut) ∙ ap (λ t. t ++ cut) e ∙ f)

-- `j` is neither `k` nor the ghost list of `k`.
abbrev pub Apart : ListName → ListName → Type 0
Apart k j = (same j k ≡ false) × (is_at (ghost_of k) j ≡ false)

module _ {H : HashTable} where
  -- A loop over the lists `k1` and `k2` that started at `a` and has come to `b`.
  pub record Draining (k1 k2 : ListName) (a b : Cache H) : Type 0 where
    pub inv : Inv b
    pub same_c : b.c ≡ a.c
    pub same_p : b.p ≡ a.p
    pub prefix1 : IsPrefix (b.lists k1).items (a.lists k1).items
    pub prefix2 : IsPrefix (b.lists k2).items (a.lists k2).items
    pub others :
        (j : ListName)
        → same j k1 ≡ false
        → same j k2 ≡ false
        → is_at (ghost_of k1) j ≡ false
        → is_at (ghost_of k2) j ≡ false
        → b.lists j ≡ a.lists j

  pub start : (k1 k2 : ListName) (a : Cache H) → Inv a → Draining k1 k2 a a
  start k1 k2 a i = record {
    inv = i;
    same_c = refl;
    same_p = refl;
    prefix1 = ([], append-nil _);
    prefix2 = ([], append-nil _);
    others = λ j p q r s. refl;
  }

  round1 :
      (k1 k2 : ListName) (a b c : Cache H)
      → Apart k1 k2
      → Draining k1 k2 a b
      → Round k1 b c
      → Draining k1 k2 a c
  round1 k1 k2 a b c (p, q) d r = record {
    inv = r.inv;
    same_c = r.same_c ∙ d.same_c;
    same_p = r.same_p ∙ d.same_p;
    prefix1 = IsPrefix-cut _ r.victim _ _ r.tail d.prefix1;
    prefix2 = rw (r.others k2 p q) d.prefix2;
    others = λ j s t u v. r.others j s u ∙ d.others j s t u v;
  }

  round2 :
      (k1 k2 : ListName) (a b c : Cache H)
      → Apart k2 k1
      → Draining k1 k2 a b
      → Round k2 b c
      → Draining k1 k2 a c
  round2 k1 k2 a b c (p, q) d r = record {
    inv = r.inv;
    same_c = r.same_c ∙ d.same_c;
    same_p = r.same_p ∙ d.same_p;
    prefix1 = rw (r.others k1 p q) d.prefix1;
    prefix2 = IsPrefix-cut _ r.victim _ _ r.tail d.prefix2;
    others = λ j s t u v. r.others j t v ∙ d.others j s t u v;
  }

  -- A loop that chooses among two such lists, and only lists with bytes in them, ends.
  module _ (fetch : Fetch) (choose : Cache H → Option ListName) (k1 k2 : ListName)
      (apart1 : Apart k1 k2) (apart2 : Apart k2 k1)
      (picks : (k : ListName) (b : Cache H)
        → choose b ≡ some k
        → ((k ≡ k1) ⊎ (k ≡ k2)) × (0 < (b.lists k).size)) where
    next-Draining :
        (k : ListName) (a b c : Cache H)
        → (k ≡ k1) ⊎ (k ≡ k2)
        → Draining k1 k2 a b
        → Round k b c
        → Draining k1 k2 a c
          × (length (c.lists k1).items + length (c.lists k2).items
              < length (b.lists k1).items + length (b.lists k2).items)
    next-Draining k a b c (inl e) d r =
        let r' : Round k1 b c = subst (λ t. Round t b c) e r in
        (
          round1 k1 k2 a b c apart1 d r',
          omega (
            arith,
            ap length r'.tail,
            length-append (c.lists k1).items (r'.victim ∷ []),
            ap (λ s. length s.items) (r'.others k2 apart1.0 apart1.1),
          ),
        )
    next-Draining k a b c (inr e) d r =
        let r' : Round k2 b c = subst (λ t. Round t b c) e r in
        (
          round2 k1 k2 a b c apart2 d r',
          omega (
            arith,
            ap length r'.tail,
            length-append (c.lists k2).items (r'.victim ∷ []),
            ap (λ s. length s.items) (r'.others k1 apart2.0 apart2.1),
          ),
        )

    pub drain-Draining :
        (fuel : ℕ) (a b : Cache H)
        → length (b.lists k1).items + length (b.lists k2).items < fuel
        → Draining k1 k2 a b
        → (c : Cache H) × (drain fetch choose fuel b ≡ some c)
          × Draining k1 k2 a c
          × (choose c ≡ none)
    unfolding drain
    drain-Draining zero a b h d = absurd (omega arith)
    drain-Draining (suc fuel) a b h d = elim (Option-cases (choose b)) [
      | inl e ↦ (b, rw (e, drain), d, e)
      | inr (k, e) ↦
          let (o, l) = last_of_size k b d.inv (picks k b e).1 in
          let (d', m) = next-Draining k a b _ (picks k b e).0 d (move-Round fetch k o b d.inv l) in
          rw (e, drain, l) (drain-Draining fuel a _ (omega arith) d')
    ]
