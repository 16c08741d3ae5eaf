-- ===== src/Arc/Books/Move.antt =====
-- arc_move and arc_balance (src/arc.c) keep the books: dropping an object gives back exactly the
-- reference that the table held.
use Prim.Native.Nat.{ℕ}
use native.Mathlib.Decide.{ℕ_discrete}
use libgroupcache.Base.{
  keys_discrete, ◌<◌, ◌≤◌, ◌≡◌, sym, ◌∙◌, ap, false, Option, none, some, List, ◌∷◌, arith,
  if◌then◌else◌, ◌⊎◌, inl, inr, Bool-cases, ◌==◌,
}
use libgroupcache.Arc.State.{HashTable, ListName, release, Cache}
use libgroupcache.Arc.Move.{Fetch, move}
use libgroupcache.Arc.Books.{HashLaws, Books, in_table, names}
use libgroupcache.Arc.Books.Kept.{Struck, Kept, move-Kept}

opt_discrete : Discrete (Option ℕ)
opt_discrete = hlevel ℕ_discrete

module _ {H : HashTable} (laws : HashLaws H) where
  -- The entry of `o` is gone, and no other.
  names_struck :
      (t : H.Table) (k : List ℕ) (o x : ℕ) (j : List ℕ)
      → H.get t k ≡ some o
      → (x ≡ o → j ≡ k)
      → names x (H.get (H.delete_if_equals t k o).0 j)
        ≡ (if x == o then false else names x (H.get t j))
  names_struck t k o x j e f = elim (keys_discrete j k) [
    | yes p ↦ rw (p, (laws.delete_equal t k o e).1, e) (ground arith)
    | no n ↦
        rw (laws.delete_others t k o j n)
          (elim (Bool-cases (x == o)) [ inl h ↦ absurd (n (f (ground arith))) | inr h ↦ rw h ])
  ]

  -- A move changes nothing in the books, or strikes the entry that the table had.
  abbrev Removed : ℕ → Cache H → Cache H → Type 0
  Removed o a b =
      (H.get a.hash (a.objs o).key ≡ some o)
      × (b.hash ≡ (H.delete_if_equals a.hash (a.objs o).key o).0)
      × (b.refs ≡ release o ∷ a.refs)

  Struck-cases :
      (o : ℕ) (a b : Cache H)
      → Struck o a b
      → ((b.hash ≡ a.hash) × (b.refs ≡ a.refs)) ⊎ Removed o a b
  Struck-cases o a b (e, f) = elim (opt_discrete (H.get a.hash (a.objs o).key) (some o)) [
    | yes g ↦ inr (g, e, f ∙ rw (laws.delete_equal a.hash (a.objs o).key o g).0)
    | no n ↦
        let same = laws.delete_other a.hash (a.objs o).key o n in
        inl (e ∙ ap (λ r. r.0) same, f ∙ ap (λ r. if r.1 then release o ∷ a.refs else a.refs) same)
  ]

  unchanged-Books :
      (o : ℕ) (a b : Cache H) (held : ℕ → ℕ)
      → o < a.next
      → Kept o a b
      → (b.hash ≡ a.hash) × (b.refs ≡ a.refs)
      → Books a held
      → Books b held
  unchanged-Books o a b held l k (e, f) i = record {
    owned = λ j x g. let (u, v) = i.owned j x (rw (← e) g) in (rw k.same_next u, k.keys x ∙ v);
    balanced = λ x. rw (f, e, k.keys x) (i.balanced x);
    fresh = λ x h.
        let h' : a.next ≤ x = omega (arith, k.same_next) in
        let (u, v, w) = i.fresh x h' in
        (ap (λ v. v.state) (k.others x (omega arith)) ∙ u, v, rw f w);
  }

  get-delete :
      (t : H.Table) (k : List ℕ) (o x : ℕ) (j : List ℕ)
      → H.get t k ≡ some o
      → H.get (H.delete_if_equals t k o).0 j ≡ some x
      → H.get t j ≡ some x
  get-delete t k o x j g q = elim (keys_discrete j k) [
    | yes p ↦
        let gone : H.get (H.delete_if_equals t k o).0 j ≡ none =
          rw p (laws.delete_equal t k o g).1 in
        absurd (cc)
    | no n ↦ sym (laws.delete_others t k o j n) ∙ q
  ]

  in_table-Removed :
      (o : ℕ) (a b : Cache H) (x : ℕ)
      → Kept o a b
      → Removed o a b
      → in_table b x ≡ (if x == o then 0 else in_table a x)
  in_table-Removed o a b x k (g, e, f) =
      let s =
        names_struck a.hash (a.objs o).key o x (a.objs x).key g (λ d. ap (λ t. (a.objs t).key) d) in
      rw (e, k.keys x, s) (ground arith)

  Removed-Books :
      (o : ℕ) (a b : Cache H) (held : ℕ → ℕ)
      → o < a.next
      → Kept o a b
      → Removed o a b
      → Books a held
      → Books b held
  Removed-Books o a b held l k (g, e, f) i = record {
    owned = λ j x q.
        let (u, v) = i.owned j x (get-delete a.hash (a.objs o).key o x j g (rw (← e) q)) in
        (rw k.same_next u, k.keys x ∙ v);
    balanced = λ x. ground (arith, i.balanced x, in_table-Removed o a b x k (g, e, f), f, g);
    fresh = λ x h.
        let h' : a.next ≤ x = omega (arith, k.same_next) in
        let (u, v, w) = i.fresh x h' in
        (ap (λ v. v.state) (k.others x (omega arith)) ∙ u, v, rw f w);
  }

  pub Kept-Books :
      (o : ℕ) (a b : Cache H) (held : ℕ → ℕ) → o < a.next → Kept o a b → Books a held → Books b held
  Kept-Books o a b held l k i = elim (k.entry) [
    | inl s ↦ unchanged-Books o a b held l k s i
    | inr s ↦ elim (Struck-cases o a b s) [
      | inl t ↦ unchanged-Books o a b held l k t i
      | inr t ↦ Removed-Books o a b held l k t i
    ]
  ]

  -- arc_move keeps the books of a cache, for an object that arc_object_create made.
  pub move-Books :
      (fetch : Fetch) (o : ℕ) (target : Option ListName) (a : Cache H) (held : ℕ → ℕ)
      → o < a.next
      → Books a held
      → Books (move fetch o target a).0 held
  move-Books fetch o target a held l = Kept-Books o a _ held l (move-Kept fetch o target a)
