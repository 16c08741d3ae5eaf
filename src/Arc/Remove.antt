-- ===== src/Arc/Remove.antt =====
-- arc_remove of src/arc.c.
use libgroupcache.Base.{
  ℕ, ◌≡◌, refl, ◌∙◌, false, none, some, List, arith, Bool-cases, Option-cases, inl, inr,
}
use libgroupcache.Arc.State.{HashTable, ListName, retain, Cache, note, forget, detach}
use libgroupcache.Arc.Move.{Fetch, move, move_begin, finish, place}
use libgroupcache.Arc.Lookup.{remove, lookup_nofetch, lookup_internal}
use libgroupcache.Arc.Books.{HashLaws}
use libgroupcache.Arc.Books.Balance.{Sound, move-Sound}
use libgroupcache.Arc.Books.Create.{plus, retain-Sound, release-Sound}

module _ {H : HashTable} where
  forget-hash :
      (o : ℕ) (a : Cache H) → (forget o a).hash ≡ (H.delete_if_equals a.hash (a.objs o).key o).0
  unfolding forget
  forget-hash o a = elim (Bool-cases (H.delete_if_equals a.hash (a.objs o).key o).1) [
    | inl h ↦ rw (h, forget)
    | inr h ↦ rw (h, forget)
  ]

  detach_key : (k : ListName) (o : ℕ) (a : Cache H) → ((detach k o a).objs o).key ≡ (a.objs o).key
  unfolding detach
  detach_key k o a = ground arith

  detach_hash : (k : ListName) (o : ℕ) (a : Cache H) → (detach k o a).hash ≡ a.hash
  unfolding detach
  detach_hash k o a = refl

  -- Dropping an object that is not locked asks the table to delete it.
  drop-hash :
      (fetch : Fetch) (o : ℕ) (a : Cache H)
      → (a.objs o).locked ≡ false
      → (move fetch o none a).0.hash ≡ (H.delete_if_equals a.hash (a.objs o).key o).0
  unfolding move move_begin finish place
  drop-hash fetch o a u = elim (Option-cases (a.objs o).state) [
    | inl e ↦ rw (u, e, move_begin) (forget-hash o a)
    | inr (k, e) ↦
        rw (u, e, move_begin)
          (forget-hash o (detach k o a) ∙ rw (detach_key k o a, detach_hash k o a))
  ]

  -- arc_remove, for a hash table that keeps its laws and a sound cache in which the object under
  -- the key, if any, is not being fetched: afterwards the table has nothing under the key, the
  -- cache is sound, and no caller's reference was taken or given back; and arc_lookup_nofetch of
  -- the key then finds nothing.
  pub remove-gone :
      (laws : HashLaws H) (fetch : Fetch) (key : List ℕ) (a : Cache H) (held : ℕ → ℕ)
      → ((o : ℕ) → H.get a.hash key ≡ some o → (a.objs o).locked ≡ false)
      → Sound a held
      → (H.get (remove fetch key a).hash key ≡ none)
        × Sound (remove fetch key a) held
        × (lookup_nofetch fetch key (remove fetch key a) ≡ some (remove fetch key a, none))
  unfolding remove lookup_internal
  remove-gone laws fetch key a held u s = elim (Option-cases (H.get a.hash key)) [
    | inl e ↦ rw (e, remove) (e, s, rw (e, lookup_internal))
    | inr (o, e) ↦
        let b = note (retain o) a in
        let own = (s.books.owned key o e).1 in
        let moved =
          move-Sound laws fetch o none b (plus o held) (s.books.owned key o e).0
            (retain-Sound o a held (s.books.owned key o e).0 s) in
        let gone : H.get (move fetch o none b).0.hash key ≡ none =
          rw (drop-hash fetch o b (u o e), own) (laws.delete_equal a.hash key o e).1 in
        rw (e, remove) (gone, release-Sound o _ held moved, rw (gone, lookup_internal))
  ]
