-- ===== src/Arc/Books/Balance.antt =====
-- arc_balance (src/arc.c) keeps the books.
use libgroupcache.Base.{
  subst, some_inj, ℕ, zero, suc, ◌<◌, ◌≡◌, ◌≢◌, Option, none, some, arith, last?, elem-last?,
  Bool-cases, Option-cases, inl, inr, ◌==◌,
}
use libgroupcache.Arc.State.{HashTable, ListName, Cache}
use libgroupcache.Arc.Invariant.{Inv}
use libgroupcache.Arc.Move.{Fetch, move}
use libgroupcache.Arc.Move.Inv.{move-Inv}
use libgroupcache.Arc.Balance.{
  ghost_of, drain, choose_resident, choose_ghost, resident_fuel, ghost_fuel, balance,
}
use libgroupcache.Arc.Balance.Bounds.{drain_resident, drain_ghost, balance_runs}
use libgroupcache.Arc.Books.{HashLaws, Books}
use libgroupcache.Arc.Books.Move.{move-Books}

-- The invariant and the books together: the state between any two calls.
pub record Sound {H : HashTable} (a : Cache H) (held : ℕ → ℕ) : Type 0 where
  pub inv : Inv a
  pub books : Books a held

module _ {H : HashTable} (laws : HashLaws H) (fetch : Fetch) where
  -- The last object of a list is one that was made.
  last_made :
      (k : ListName) (o : ℕ) (a : Cache H) (held : ℕ → ℕ)
      → Sound a held
      → last? (a.lists k).items ≡ some o
      → o < a.next
  last_made k o a held s h =
      ground (arith, (s.inv.lists k).members o, elem-last? o (a.lists k).items h, s.books.fresh o)

  pub move-Sound :
      (o : ℕ) (target : Option ListName) (a : Cache H) (held : ℕ → ℕ)
      → o < a.next
      → Sound a held
      → Sound (move fetch o target a).0 held
  move-Sound o target a held l s = record {
    inv = move-Inv fetch o target a s.inv;
    books = move-Books laws fetch o target a held l s.books;
  }

  drain-Sound :
      (choose : Cache H → Option ListName) (fuel : ℕ) (a b : Cache H) (held : ℕ → ℕ)
      → drain fetch choose fuel a ≡ some b
      → Sound a held
      → Sound b held
  unfolding drain
  drain-Sound choose zero a b held h s = cc
  drain-Sound choose (suc fuel) a b held h s = elim (Option-cases (choose a)) [
    | inl e ↦ subst (λ t. Sound t held) (some_inj a b (rw (e, drain) at h)) s
    | inr (k, e) ↦ elim (Option-cases (last? (a.lists k).items)) [
      | inl l ↦ let stuck : none ≡ some b = rw (e, drain, l) at h in cc
      | inr (o, l) ↦
          drain-Sound choose fuel (move fetch o (ghost_of k) a).0 b held (rw (e, drain, l) at h)
            (move-Sound o (ghost_of k) a held (last_made k o a held s l) s)
    ]
  ]

  -- The two loops, one after the other.
  balance-pending :
      (a : Cache H) (held : ℕ → ℕ)
      → a.needs_balance ≢ 0
      → Sound a held
      → (b : Cache H) × (balance fetch a ≡ some b) × Sound b held
  balance-pending a held n s =
      let (b, run1, d1, _) = drain_resident fetch a s.inv in
      let s1 = drain-Sound choose_resident (resident_fuel a) a b held run1 s in
      let (c, run2, d2, _) = drain_ghost fetch b d1.inv in
      let s2 = drain-Sound choose_ghost (ghost_fuel b) b c held run2 s1 in
      (
        record c { needs_balance = 0 },
        balance_runs fetch a b c n run1 run2,
        record {
          inv = record { lists = s2.inv.lists; objects = s2.inv.objects };
          books = record {
            owned = s2.books.owned;
            balanced = s2.books.balanced;
            fresh = s2.books.fresh;
          };
        },
      )

  pub balance-Sound :
      (a : Cache H) (held : ℕ → ℕ)
      → Sound a held
      → (b : Cache H) × (balance fetch a ≡ some b) × Sound b held
  unfolding balance
  balance-Sound a held s = elim (Bool-cases (a.needs_balance == 0)) [
    | inl e ↦ (a, rw (e, balance), s)
    | inr e ↦ balance-pending a held (λ z. ground arith) s
  ]
