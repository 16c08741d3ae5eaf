-- ===== src/Arc/Lookup/Sound.antt =====
-- arc_lookup of src/arc.c answers, and its caller holds exactly the reference that it is given.
use libgroupcache.Base.{
  ℕ, ◌<◌, ◌≡◌, refl, Bool, true, false, not, ◌||◌, Option, none, some, List, arith, ◌==◌,
  Bool-cases, Option-cases, inl, inr, pos, ==_iff,
}
use libgroupcache.Arc.State.{HashTable, mru, mfu, is_at, retain, Cache, note, set_object}
use libgroupcache.Arc.Move.{Fetch, move, move_begin, finish, place}
use libgroupcache.Arc.Balance.{balance}
use libgroupcache.Arc.Lookup.{
  object_create, lookup_hit, lookup_stored, lookup_miss, lookup_internal, lookup, is_nonneg,
}
use libgroupcache.Arc.Books.{HashLaws}
use libgroupcache.Arc.Books.Balance.{Sound, move-Sound, balance-Sound}
use libgroupcache.Arc.Books.Create.{
  plus, retain-Sound, release-Sound, create-Sound, set_async-Sound, store-Sound, refuse-Sound,
}

-- What the caller of a lookup holds: the object that it was given, once more.
abbrev pub plus_result : Option ℕ → (ℕ → ℕ) → ℕ → ℕ
plus_result none held = held
plus_result (some o) held = plus o held

-- A lookup answers, and the cache is sound with the caller's reference counted.
abbrev pub Answers : {H : HashTable} → (ℕ → ℕ) → Option (Cache H × Option ℕ) → Type 0
Answers held r = (a : Cache _) × (o : Option ℕ) × (r ≡ some (a, o)) × Sound a (plus_result o held)

module _ {H : HashTable} where
  -- A hit is moved to the MFU list with no fetch.
  move_hit : (fetch : Fetch) (o : ℕ) (a : Cache H) → (move fetch o (some mfu) a).1 ≡ pos 0
  unfolding move move_begin finish place
  move_hit fetch o a = ground arith

module _ {H : HashTable} (laws : HashLaws H) (fetch : Fetch) where
  balance-Answers :
      (o : ℕ) (a : Cache H) (held : ℕ → ℕ)
      → Sound a (plus o held)
      → Answers held (elim (balance fetch a) [ none ↦ none | some b ↦ some (b, some o) ])
  balance-Answers o a held s =
      let (b, run, t) = balance-Sound laws fetch a (plus o held) s in (b, some o, rw run, t)

  hit-Answers :
      (o : ℕ) (a : Cache H) (held : ℕ → ℕ)
      → o < a.next
      → Sound a held
      → Answers held (lookup_hit fetch o a)
  unfolding lookup_hit
  hit-Answers o a held l s = elim (Bool-cases (not a.mode || not (is_at (a.objs o).state mfu))) [
    | inl h ↦
        rw (h, move_hit fetch o (note (retain o) a))
          (balance-Answers o _ held
            (move-Sound laws fetch o (some mfu) _ (plus o held) l (retain-Sound o a held l s)))
    | inr h ↦ rw h (note (retain o) a, some o, refl, retain-Sound o a held l s)
  ]

  stored-Answers :
      (o : ℕ) (a : Cache H) (held : ℕ → ℕ)
      → o < a.next
      → Sound a (plus o held)
      → Answers held (lookup_stored fetch o a)
  unfolding lookup_stored
  stored-Answers o a held l s =
      let t = move-Sound laws fetch o (some mru) a (plus o held) l s in
      elim (Bool-cases (is_nonneg (move fetch o (some mru) a).1)) [
        | inl h ↦ rw h (balance-Answers o _ held t)
        | inr h ↦ rw h (_, none, refl, release-Sound o _ held t)
      ]

  -- The new object before it is offered to the table: the caller has two references to it.
  abbrev offered : List ℕ → Bool → Cache H → Cache H
  offered key async a =
      let b = (object_create key a).0 in
      note (retain a.next) (set_object a.next (record (b.objs a.next) { async = async }) b)

  offered-Sound :
      (key : List ℕ) (async : Bool) (a : Cache H) (held : ℕ → ℕ)
      → Sound a held
      → Sound (offered key async a) (plus a.next (plus a.next held))
  unfolding object_create
  offered-Sound key async a held s = retain-Sound a.next _ _ (omega arith) (
      set_async-Sound a.next async (object_create key a).0 _ (omega arith)
        (create-Sound key a held s))

  offered_key :
      (key : List ℕ) (async : Bool) (a : Cache H) → ((offered key async a).objs a.next).key ≡ key
  unfolding object_create
  offered_key key async a = ground arith

  miss-Answers :
      (async : Bool) (key : List ℕ) (again : Cache H → Option (Cache H × Option ℕ)) (a : Cache H)
      (held : ℕ → ℕ)
      → H.get a.hash key ≡ none
      → Sound a held
      → Answers held (lookup_miss fetch async key again a)
  unfolding lookup_miss object_create
  miss-Answers async key again a held absent s = elim (Bool-cases (code == 0)) [
    | inl h ↦ rw h (
        stored-Answers a.next _ held (omega arith) (
          store-Sound laws key a.next (offered key async a) (plus a.next held) absent
            (offered_key key async a) (omega arith) two ((==_iff code 0).0 h)))
    | inr h ↦
        rw (h, not_one)
          (
            _,
            none,
            refl,
            release-Sound a.next _ held (
                release-Sound a.next _ (plus a.next held) (
                  refuse-Sound laws key a.next (offered key async a) (plus a.next held) absent
                    (offered_key key async a) (omega arith) two (λ z. ground arith))),
          )
  ]
    where
      code : ℕ
      code = (H.set_if_not_exists a.hash key a.next).1

      two : Sound (offered key async a) (plus a.next (plus a.next held))
      two = offered-Sound key async a held s

      not_one : (code == 1) ≡ false
      not_one = ground (arith, laws.set_absent a.hash key a.next absent)

  -- arc_lookup, for a hash table that keeps its laws and a sound cache, on any key: one call
  -- answers, with no call of itself; the cache it leaves satisfies the invariant; and the
  -- references add up: for every object, those ever taken are those given back, the table's own
  -- and those that callers held before, and one more to the object returned, if there is one.
  pub lookup-Answers :
      (async : Bool) (key : List ℕ) (a : Cache H) (held : ℕ → ℕ)
      → Sound a held
      → Answers held (lookup 1 fetch async key a)
  unfolding lookup_internal
  lookup-Answers async key a held s = elim (Option-cases (H.get a.hash key)) [
    | inl e ↦
        rw (e, lookup_internal)
          (miss-Answers async key (lookup_internal 0 fetch async true key) a held e s)
    | inr (o, e) ↦ rw (e, lookup_internal) (hit-Answers o a held (s.books.owned key o e).0 s)
  ]
