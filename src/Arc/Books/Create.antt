-- ===== src/Arc/Books/Create.antt =====
-- How making an object, taking and giving back references and storing the object in the table
-- (src/arc.c) change the books.
use libgroupcache.Base.{
  ℕ, ==_iff, ◌+◌, ◌<◌, ◌≡◌, ◌≢◌, refl, sym, ◌∙◌, ap, Bool, true, false, none, some, List, arith,
  if◌then◌else◌, ◌==◌, Bool-cases, inl, inr,
}
use libgroupcache.Arc.State.{HashTable, retain, release, Cache, note, set_object}
use libgroupcache.Arc.Invariant.{Inv}
use libgroupcache.Arc.Invariant.Writes.{resize-Inv, set_object-Inv}
use libgroupcache.Arc.Lookup.{object_create}
use libgroupcache.Arc.Books.{HashLaws, names}
use libgroupcache.Base.{keys_discrete}
use libgroupcache.Arc.Books.Balance.{Sound}

-- One reference more to `o`.
abbrev pub plus : ℕ → (ℕ → ℕ) → ℕ → ℕ
plus o held x = held x + (if x == o then 1 else 0)

module _ {H : HashTable} where
  pub retain-Sound :
      (o : ℕ) (a : Cache H) (held : ℕ → ℕ)
      → o < a.next
      → Sound a held
      → Sound (note (retain o) a) (plus o held)
  retain-Sound o a held l s = record {
    inv = record { lists = s.inv.lists; objects = s.inv.objects };
    books = record {
      owned = s.books.owned;
      balanced = λ x. ground (arith, s.books.balanced x);
      fresh = λ x h. ground (arith, s.books.fresh x h);
    };
  }

  pub release-Sound :
      (o : ℕ) (a : Cache H) (held : ℕ → ℕ) → Sound a (plus o held) → Sound (note (release o) a) held
  release-Sound o a held s = record {
    inv = record { lists = s.inv.lists; objects = s.inv.objects };
    books = record {
      owned = s.books.owned;
      balanced = λ x. ground (arith, s.books.balanced x);
      fresh = λ x h. ground (arith, s.books.fresh x h);
    };
  }

  -- The table holds no object that is yet to be made.
  unmade :
      (a : Cache H) (held : ℕ → ℕ) (k : List ℕ)
      → Sound a held
      → names a.next (H.get a.hash k) ≡ false
  unmade a held k s = ground (arith, s.books.owned k a.next)

  pub object_create-Inv :
      (key : List ℕ) (a : Cache H)
      → (a.objs a.next).state ≡ none
      → Inv a
      → Inv (object_create key a).0
  unfolding object_create
  object_create-Inv key a e i =
      let j = resize-Inv a.next _ a e refl (λ u. refl) (omega arith) i in
      record { lists = j.lists; objects = j.objects }

  pub create-Sound :
      (key : List ℕ) (a : Cache H) (held : ℕ → ℕ)
      → Sound a held
      → Sound (object_create key a).0 (plus a.next held)
  unfolding object_create
  create-Sound key a held s = record {
    inv = object_create-Inv key a (s.books.fresh a.next (omega arith)).0 s.inv;
    books = record {
      owned = λ k x e. ground (arith, s.books.owned k x);
      balanced = λ x. ground (
        arith,
        s.books.balanced x,
        s.books.fresh x,
        unmade a held key s,
        unmade a held (a.objs x).key s,
      );
      fresh = λ x h. ground (arith, s.books.fresh x);
    };
  }

  pub set_async-Sound :
      (o : ℕ) (async : Bool) (a : Cache H) (held : ℕ → ℕ)
      → o < a.next
      → Sound a held
      → Sound (set_object o (record (a.objs o) { async = async }) a) held
  set_async-Sound o async a held l s = record {
    inv = set_object-Inv o _ a refl refl (s.inv.objects o).fetched s.inv;
    books = record {
      owned = λ k x e. ground (arith, s.books.owned k x);
      balanced = λ x. ground (arith, s.books.balanced x);
      fresh = λ x h. ground (arith, s.books.fresh x);
    };
  }

  module _ (laws : HashLaws H) (key : List ℕ) (o : ℕ) (a : Cache H) (held : ℕ → ℕ)
      (absent : H.get a.hash key ≡ none) (own : (a.objs o).key ≡ key) (made : o < a.next)
      (s : Sound a (plus o held)) where
    abbrev stored_in : H.Table
    stored_in = (H.set_if_not_exists a.hash key o).0

    get-stored :
        (j : List ℕ) (x : ℕ)
        → (H.set_if_not_exists a.hash key o).1 ≡ 0
        → H.get stored_in j ≡ some x
        → (x < a.next) × ((a.objs x).key ≡ j)
    get-stored j x z g = elim (keys_discrete j key) [
      | yes p ↦
          let e : some o ≡ some x =
            sym (laws.set_stored a.hash key o z) ∙ ap (H.get stored_in) (sym p) ∙ g in
          let f : o ≡ x = cc in (rw (← f) made, rw (← f, p) own)
      | no n ↦ s.books.owned j x (sym (laws.set_others a.hash key o j n) ∙ g)
    ]

    names-stored :
        (x : ℕ)
        → (H.set_if_not_exists a.hash key o).1 ≡ 0
        → names x (H.get stored_in (a.objs x).key)
          ≡ (if x == o then true else names x (H.get a.hash (a.objs x).key))
    names-stored x z = elim (keys_discrete (a.objs x).key key) [
      | yes p ↦ rw (p, laws.set_stored a.hash key o z, absent) (ground arith)
      | no n ↦ rw (laws.set_others a.hash key o (a.objs x).key n) (elim (Bool-cases (x == o)) [
        | inl h ↦ absurd (n (ap (λ t. (a.objs t).key) ((==_iff x o).0 h) ∙ own))
        | inr h ↦ rw h
      ])
    ]

    -- The table takes the object, and one of the two references becomes its own.
    pub store-Sound :
        (H.set_if_not_exists a.hash key o).1 ≡ 0 → Sound (record a { hash = stored_in }) held
    store-Sound z = record {
      inv = record { lists = s.inv.lists; objects = s.inv.objects };
      books = record {
        owned = λ j x g. get-stored j x z g;
        balanced = λ x. ground (arith, s.books.balanced x, names-stored x z, own, absent);
        fresh = λ x h. ground (arith, s.books.fresh x h);
      };
    }

    -- The table does not take it, and is as before.
    pub refuse-Sound :
        (H.set_if_not_exists a.hash key o).1 ≢ 0
        → Sound (record a { hash = stored_in }) (plus o held)
    refuse-Sound z = rw (laws.set_failed a.hash key o z) s
