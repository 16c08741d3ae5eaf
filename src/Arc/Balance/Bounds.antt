-- ===== src/Arc/Balance/Bounds.antt =====
-- arc_balance of src/arc.c ends, keeps the invariant and leaves the cache within its size.
use libgroupcache.Base.{
  ◌<◌, ◌≤◌, ◌^◌, ◌≡◌, ◌≢◌, refl, ◌∙◌, ◌⊎◌, none, some, arith, Bool-cases, inl, inr, ◌==◌,
}
use libgroupcache.Arc.State.{HashTable, ListName, mrug, mru, mfu, mfug, Cache}
use libgroupcache.Arc.Invariant.{Inv}
use libgroupcache.Arc.Move.{Fetch}
use libgroupcache.Arc.Balance.{
  drain, choose_resident, choose_ghost, resident_size, ghost_size, resident_fuel, ghost_fuel,
  balance,
}
use libgroupcache.Arc.Balance.Loops.{IsPrefix, Draining, start, drain-Draining}

module _ {H : HashTable} where
  picks_resident :
      (k : ListName) (b : Cache H)
      → choose_resident b ≡ some k
      → ((k ≡ mru) ⊎ (k ≡ mfu)) × (0 < (b.lists k).size)
  unfolding choose_resident
  picks_resident mru b h = (inl refl, ground arith)
  picks_resident mfu b h = (inr refl, ground arith)
  picks_resident _ b h = ground arith

  picks_ghost :
      (k : ListName) (b : Cache H)
      → choose_ghost b ≡ some k
      → ((k ≡ mrug) ⊎ (k ≡ mfug)) × (0 < (b.lists k).size)
  unfolding choose_ghost
  picks_ghost mrug b h = (inl refl, ground arith)
  picks_ghost mfug b h = (inr refl, ground arith)
  picks_ghost _ b h = ground arith

  -- Where the marker is within the size, the loops end only when the lists fit.
  resident_fits :
      (b : Cache H) → choose_resident b ≡ none → b.p ≤ b.c → b.c < 2 ^ 64 → resident_size b ≤ b.c
  unfolding choose_resident
  resident_fits b h p c = ground arith

  ghost_fits : (b : Cache H) → choose_ghost b ≡ none → b.p ≤ b.c → b.c < 2 ^ 64 → ghost_size b ≤ b.c
  unfolding choose_ghost
  ghost_fits b h p c = ground arith

  pub drain_resident :
      (fetch : Fetch) (a : Cache H)
      → Inv a
      → (b : Cache H) × (drain fetch choose_resident (resident_fuel a) a ≡ some b)
        × Draining mru mfu a b
        × (choose_resident b ≡ none)
  drain_resident fetch a i =
      drain-Draining fetch choose_resident mru mfu (refl, refl) (refl, refl) picks_resident
        (resident_fuel a) a a (omega arith) (start mru mfu a i)

  pub drain_ghost :
      (fetch : Fetch) (a : Cache H)
      → Inv a
      → (b : Cache H) × (drain fetch choose_ghost (ghost_fuel a) a ≡ some b)
        × Draining mrug mfug a b
        × (choose_ghost b ≡ none)
  drain_ghost fetch a i =
      drain-Draining fetch choose_ghost mrug mfug (refl, refl) (refl, refl) picks_ghost
        (ghost_fuel a) a a (omega arith) (start mrug mfug a i)

  pub balance_runs :
      (fetch : Fetch) (a b c : Cache H)
      → a.needs_balance ≢ 0
      → drain fetch choose_resident (resident_fuel a) a ≡ some b
      → drain fetch choose_ghost (ghost_fuel b) b ≡ some c
      → balance fetch a ≡ some (record c { needs_balance = 0 })
  unfolding balance
  balance_runs fetch a b c n e f = elim (Bool-cases (a.needs_balance == 0)) [
    | inl h ↦ absurd (n (ground arith))
    | inr h ↦ rw (h, e, balance, f)
  ]

  -- What arc_balance does to a cache.
  pub record Balanced (a b : Cache H) : Type 0 where
    pub inv : Inv b
    pub same_c : b.c ≡ a.c
    pub same_p : b.p ≡ a.p
    pub residents_fit : resident_size b ≤ b.c
    pub ghosts_fit : ghost_size b ≤ b.c
    pub mru_tail : IsPrefix (b.lists mru).items (a.lists mru).items
    pub mfu_tail : IsPrefix (b.lists mfu).items (a.lists mfu).items
    pub settled : b.needs_balance ≡ 0

  -- arc_balance, on a cache that satisfies the invariant, whose balance is pending and whose marker
  -- p is at most its size c: the loops end, within one round for each object, without touching an
  -- empty list; the invariant, c and p are kept; afterwards the residents (MRU and MFU), and the
  -- ghosts (MRUG and MFUG), take at most c bytes; and only a tail, the least recently used end, was
  -- cut off each of the two resident lists.
  pub balance-Balanced :
      (fetch : Fetch) (a : Cache H)
      → Inv a
      → a.needs_balance ≢ 0
      → a.p ≤ a.c
      → a.c < 2 ^ 64
      → (b : Cache H) × (balance fetch a ≡ some b) × Balanced a b
  balance-Balanced fetch a i n p c =
      let (b, run1, d1, end1) = drain_resident fetch a i in
      let (e, run2, d2, end2) = drain_ghost fetch b d1.inv in
      let mru_same : e.lists mru ≡ b.lists mru = d2.others mru refl refl refl refl in
      let mfu_same : e.lists mfu ≡ b.lists mfu = d2.others mfu refl refl refl refl in
      (
        record e { needs_balance = 0 },
        balance_runs fetch a b e n run1 run2,
        record {
          inv = record { lists = d2.inv.lists; objects = d2.inv.objects };
          same_c = d2.same_c ∙ d1.same_c;
          same_p = d2.same_p ∙ d1.same_p;
          residents_fit =
              rw (mru_same, mfu_same, d2.same_c) (resident_fits b end1 (omega arith) (omega arith));
          ghosts_fit = ghost_fits e end2 (omega arith) (omega arith);
          mru_tail = rw mru_same d1.prefix1;
          mfu_tail = rw mfu_same d1.prefix2;
          settled = refl;
        },
      )
