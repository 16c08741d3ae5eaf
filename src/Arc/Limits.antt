-- ===== src/Arc/Limits.antt =====
-- Where src/arc.c lets the cache outgrow its size.
use native.Mathlib.Numerals.{add-one}
use libgroupcache.Base.{
  ℕ, ◌⊎◌, ◌^◌, ◌<◌, ◌≤◌, ◌≡◌, ◌≢◌, refl, Bool, true, false, none, some, List, ◌∷◌, arith, inl, inr,
  ◌||◌, pos,
}
use libgroupcache.Base.Words.{add64}
use libgroupcache.Arc.State.{
  HashTable, ListName, mrug, mru, mfu, mfug, is_at, retain, release, Cache, note, attach, detach,
}
use libgroupcache.Arc.Invariant.{Inv}
use libgroupcache.Arc.Move.{Fetch, move, move_begin, finish, place, moved_marker}
use libgroupcache.Arc.Balance.{balance, choose_resident, resident_fuel, drain, set_size}
use libgroupcache.Arc.Balance.Bounds.{drain_ghost, balance_runs}
use libgroupcache.Arc.Books.{HashLaws}
use libgroupcache.Arc.Lookup.{lookup_hit, load, object_create}

or_true : (b : Bool) → (b || true) ≡ true
or_true b = ground arith

module _ {H : HashTable} where
  -- `c - p` wraps where the marker is above the size.
  choose_nothing :
      (a : Cache H)
      → a.c < a.p
      → a.p ≤ 2 ^ 63
      → (a.lists mru).size ≤ a.p
      → (a.lists mfu).size ≤ a.p
      → choose_resident a ≡ none
  unfolding choose_resident
  choose_nothing a h p m f = ground arith

  drain_nothing :
      (fetch : Fetch) (a : Cache H)
      → choose_resident a ≡ none
      → drain fetch choose_resident (resident_fuel a) a ≡ some a
  unfolding drain
  drain_nothing fetch a h = rw (add-one, drain, h)

  -- arc_set_size to a size whose half is below the marker p, in a cache that satisfies the
  -- invariant, with a balance pending, p at most 2 ^ 63, and neither resident list larger than p:
  -- arc_balance then evicts nothing from the MRU and MFU lists, however far they are above the
  -- new size.
  pub balance-set_size :
      (fetch : Fetch) (a : Cache H) (size : ℕ)
      → Inv a
      → a.needs_balance ≢ 0
      → (set_size size a).c < a.p
      → a.p ≤ 2 ^ 63
      → (a.lists mru).size ≤ a.p
      → (a.lists mfu).size ≤ a.p
      → (b : Cache H) × (balance fetch (set_size size a) ≡ some b)
        × (b.lists mru ≡ a.lists mru)
        × (b.lists mfu ≡ a.lists mfu)
  unfolding set_size
  balance-set_size fetch a size i n h p m f =
      let a' : Cache H = set_size size a in
      let i' : Inv a' = record { lists = i.lists; objects = i.objects } in
      let run1 = drain_nothing fetch a' (choose_nothing a' h p m f) in
      let (e, run2, d2, _) = drain_ghost fetch a' i' in
      (
        record e { needs_balance = 0 },
        balance_runs fetch a' a' e n run1 run2,
        d2.others mru refl refl refl refl,
        d2.others mfu refl refl refl refl,
      )

  -- The first section of a move of a ghost to the MFU list.
  move_ghost :
      (fetch : Fetch) (k : ListName) (o : ℕ) (a : Cache H)
      → (a.objs o).locked ≡ false
      → (a.objs o).state ≡ some k
      → is_at (some mfu) k ≡ false
      → move fetch o (some mfu) a
        ≡ (attach mfu o (detach k o (record a { p = moved_marker k a })), pos 0)
  unfolding move move_begin finish place detach
  move_ghost fetch k o a u e n = ground arith

  hit_settled :
      (fetch : Fetch) (o : ℕ) (a c : Cache H)
      → is_at (a.objs o).state mfu ≡ false
      → move fetch o (some mfu) (note (retain o) a) ≡ (c, pos 0)
      → c.needs_balance ≡ 0
      → lookup_hit fetch o a ≡ some (c, some o)
  unfolding lookup_hit balance
  hit_settled fetch o a c m e z = simp (m, or_true, e, z)

  ghost_hit :
      (fetch : Fetch) (k : ListName) (o : ℕ) (a : Cache H)
      → (a.objs o).locked ≡ false
      → (a.objs o).state ≡ some k
      → is_at (some mfu) k ≡ false
      → is_at (some k) mfu ≡ false
      → a.needs_balance ≡ 0
      → lookup_hit fetch o a
        ≡ some (
          attach mfu o
              (detach k o (record (note (retain o) a) { p = moved_marker k (note (retain o) a) })),
          some o,
        )
  unfolding lookup_hit balance attach detach
  ghost_hit fetch k o a u e n m z =
      hit_settled fetch o a _ (ground arith) (move_ghost fetch k o (note (retain o) a) u e n) z

  -- A hit in a ghost list (MRUG or MFUG) while no balance is pending: the lookup returns the
  -- object at the head of the MFU list and adds its size to that list; the MRU list is as it was;
  -- and nothing is balanced, however large the residents have become.
  pub lookup_hit-ghost :
      (fetch : Fetch) (k : ListName) (o : ℕ) (a : Cache H)
      → Inv a
      → (a.objs o).state ≡ some k
      → (k ≡ mrug) ⊎ (k ≡ mfug)
      → a.needs_balance ≡ 0
      → (b : Cache H) × (lookup_hit fetch o a ≡ some (b, some o))
        × ((b.lists mfu).items ≡ o ∷ (a.lists mfu).items)
        × ((b.lists mfu).size ≡ add64 (a.lists mfu).size (a.objs o).size)
        × (b.lists mru ≡ a.lists mru)
        × (b.needs_balance ≡ 0)
  unfolding attach detach
  lookup_hit-ghost fetch k o a i e (inl g) n = (
    _,
    ghost_hit fetch k o a (ground (arith, (i.objects o).fetched)) e (ground arith) (ground arith) n,
    ground arith,
    ground arith,
    ground arith,
    n,
  )
  lookup_hit-ghost fetch k o a i e (inr g) n = (
    _,
    ghost_hit fetch k o a (ground (arith, (i.objects o).fetched)) e (ground arith) (ground arith) n,
    ground arith,
    ground arith,
    ground arith,
    n,
  )

  abbrev loaded : List ℕ → Cache H → Cache H
  loaded key a =
      let b = note (retain a.next) (object_create key a).0 in
      note (release a.next) (record b { hash = (H.set_if_not_exists a.hash key a.next).0 })

  -- arc_load of a key that the table then takes: the new object is in the table and in no list,
  -- with no byte added to any list; and a later move to the MFU list, which is what a lookup of
  -- the key makes of it, does not change that: it is never counted, and no balance can evict it.
  pub load_unlisted :
      (laws : HashLaws H) (fetch : Fetch) (key : List ℕ) (a : Cache H)
      → H.get a.hash key ≡ none
      → (H.set_if_not_exists a.hash key a.next).1 ≡ 0
      → (b : Cache H) × (load 1 key a ≡ some (b, pos 0))
        × (H.get b.hash key ≡ some a.next)
        × ((b.objs a.next).state ≡ none)
        × (b.lists ≡ a.lists)
        × (move fetch a.next (some mfu) b ≡ (b, pos 0))
  unfolding load object_create move move_begin finish
  load_unlisted laws fetch key a e z = (
    loaded key a,
    rw (e, load, z),
    laws.set_stored a.hash key a.next z,
    ground arith,
    refl,
    ground arith,
  )
