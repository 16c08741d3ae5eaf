-- ===== src/Node/Migration/Scanned.antt =====
-- The loop of a migration in src/shardcache.c, and its invariant.
use libgroupcache.Base.{
  ℕ, zero, suc, ◌+◌, Bool, true, false, Option, none, some, Bool-cases, List, [], ◌∷◌, ◌++◌, length,
  length-append, All, ◌==◌, if◌then◌else◌, ◌≡◌, refl, sym, ap, ◌∙◌, subst, inl, inr, arith, ℤ, pos,
  negsuc,
}
use libgroupcache.Node.State.{
  send_set, Action, Host, Node, Outcome, stuck, done, ◌>>=◌, act, to_peer, end_to_replicas,
}
use libgroupcache.Node.Ownership.{owner_of, is_migrated, test_ownership, node_select}
use libgroupcache.Node.Commands.{is_zero}
use libgroupcache.Node.Locks.{
  since, done_inj, stuck-ne-done, test_ownership-single, test_ownership-plain,
  test_ownership-replica, test_ownership-stuck,
}
use libgroupcache.Node.Migration.{Scan, failed, copy_item, migrate_key, migrate_keys}

is_zero-pos : (r : ℤ) → is_zero r ≡ true → r ≡ pos 0
is_zero-pos r h = ground arith

All-snoc {ℓ κ} :
    {A : Type ℓ} (P : A → Type κ) (xs : List A) (x : A) → All P xs → P x → All P (xs ++ x ∷ [])
All-snoc P [] x h p = (p, tt)
All-snoc P (y ∷ xs) x h p = (h.0, All-snoc P xs x h.1 p)

module _ {H : Host} where
  -- A key whose value another node has taken: the owner in the migration's ring is not this node, the
  -- storage has a value, and the owner answered 0 to a set of it.
  pub record IsCopied (a : Node H) (key : List ℕ) : Type 0 where
    pub value : List ℕ
    pub name : List ℕ
    pub before : List Action
    pub owner : owner_of a true key ≡ (pos 0, name)
    pub fetched : (H.fetch a.storage key).1 ≡ some value
    pub taken : H.peer before name (send_set key value 0 a.expire_time) ≡ pos 0

  -- The loop's invariant: the node has only acted, and what is to be deleted was copied.
  pub record IsScanned (a : Node H) (s : Scan H) : Type 0 where
    pub acted : s.node ≡ since a s.node.actions
    pub copied : All (IsCopied a) s.to_delete
    pub counted : length s.to_delete ≡ s.migrated

  -- The result of a test, read off an equation.
  acted_of :
      (a b : Node H) (h : List Action) (key name name' : List ℕ) (mine mine' : ℤ)
      → (mine' ≡ pos 0 → owner_of a true key ≡ (mine', name'))
      → ◌≡◌ {A = Outcome (Node H × ℤ × List ℕ)}
          (done (since a h, mine', name'))
          (done (b, mine, name))
      → (b ≡ since a b.actions) × (mine ≡ pos 0 → owner_of a true key ≡ (pos 0, name))
  acted_of a b h key name name' mine mine' own e =
      let q : ◌≡◌ {A = Node H × ℤ × List ℕ} (since a h, mine', name') (b, mine, name) =
        done_inj _ _ e in
      let node : since a h ≡ b = ap (λ (t : Node H × ℤ × List ℕ). t.0) q in
      let code : mine' ≡ mine = ap (λ (t : Node H × ℤ × List ℕ). t.1) q in
      let label : name' ≡ name = ap (λ (t : Node H × ℤ × List ℕ). t.2) q in
      (
        subst (λ (n : Node H). n ≡ since a n.actions) node refl,
        λ z. own (code ∙ z) ∙ rw (code ∙ z, label) refl,
      )

  -- The test of the ownership, on a node that has acted, that does not wait for ever.
  pub test_ownership-acted :
      (a b : Node H) (h : List Action) (key name : List ℕ) (mine : ℤ)
      → test_ownership (since a h) key true ≡ done (b, mine, name)
      → (b ≡ since a b.actions) × (mine ≡ pos 0 → owner_of a true key ≡ (pos 0, name))
  test_ownership-acted a b h key name mine e = elim (Bool-cases (length a.shards == 1)) [
    | inl one ↦
        acted_of a b h key name [] mine (pos 1) (λ z. absurd (ground arith))
          (sym (test_ownership-single (since a h) key true one) ∙ e)
    | inr more ↦ elim (Bool-cases (is_migrated a)) [
      | inr no_end ↦
          acted_of a b h key name (owner_of a true key).1 mine (owner_of a true key).0 (λ z. refl)
            (sym (test_ownership-plain (since a h) key true more no_end) ∙ e)
      | inl ends ↦ elim (Bool-cases a.replica) [
        | inl r ↦
            acted_of a b (end_to_replicas ∷ h) key name (owner_of a true key).1 mine
              (owner_of a true key).0 (λ z. refl)
              (sym (test_ownership-replica (since a h) key true more ends r) ∙ e)
        | inr r ↦
            absurd
              (stuck-ne-done _ (sym (test_ownership-stuck (since a h) key true more ends r) ∙ e))
      ]
    ]
  ]

  copy_item-IsScanned :
      (a : Node H) (s : Scan H) (name key value : List ℕ)
      → IsScanned a s
      → owner_of a true key ≡ (pos 0, name)
      → (H.fetch a.storage key).1 ≡ some value
      → IsScanned a (copy_item s name key value)
  unfolding copy_item
  copy_item-IsScanned a s name key value i owner fetched =
      let x = to_peer name (send_set key value 0 s.node.expire_time) in
      let moved : act x s.node ≡ since a (x ∷ s.node.actions) = ap (act x) i.acted in
      let time : s.node.expire_time ≡ a.expire_time = ap (λ (n : Node H). n.expire_time) i.acted in
      elim (Bool-cases (node_select s.node name)) [
        | inr gone ↦ rw gone (record { acted = i.acted; copied = i.copied; counted = i.counted })
        | inl there ↦
            rw there
              (elim (Bool-cases
                (is_zero (H.peer s.node.actions name (send_set key value 0 s.node.expire_time)))) [
                  | inr bad ↦
                      rw bad (record { acted = moved; copied = i.copied; counted = i.counted })
                  | inl ok ↦ rw ok (record {
                    acted = moved;
                    copied = All-snoc (IsCopied a) s.to_delete key i.copied (record {
                      value = value;
                      name = name;
                      before = s.node.actions;
                      owner = owner;
                      fetched = fetched;
                      taken =
                          subst
                            (λ (t : ℕ). H.peer s.node.actions name (send_set key value 0 t) ≡ pos 0)
                            time (is_zero-pos _ ok);
                    });
                    counted = omega (arith, length-append s.to_delete (key ∷ []), i.counted);
                  })
                ])
      ]

  -- What the owner of the key takes of what the storage has.
  fetched-IsScanned :
      (a : Node H) (s : Scan H) (name key : List ℕ) (rc : ℤ) (found : Option (List ℕ))
      → IsScanned a s
      → owner_of a true key ≡ (pos 0, name)
      → (H.fetch a.storage key).1 ≡ found
      → IsScanned a (elim rc [
        | negsuc zero ↦ failed s
        | _ ↦ elim found [
          | none ↦ record s { scanned = s.scanned + 1 }
          | some value ↦ copy_item s name key value
        ]
      ])
  fetched-IsScanned a s name key (negsuc zero) found i owner f = record {
    acted = i.acted;
    copied = i.copied;
    counted = i.counted;
  }
  fetched-IsScanned a s name key (negsuc (suc n)) none i owner f = record {
    acted = i.acted;
    copied = i.copied;
    counted = i.counted;
  }
  fetched-IsScanned a s name key (negsuc (suc n)) (some v) i owner f =
      copy_item-IsScanned a s name key v i owner f
  fetched-IsScanned a s name key (pos n) none i owner f = record {
    acted = i.acted;
    copied = i.copied;
    counted = i.counted;
  }
  fetched-IsScanned a s name key (pos n) (some v) i owner f =
      copy_item-IsScanned a s name key v i owner f

  pub migrate_key-IsScanned :
      (a : Node H) (s : Scan H) (mine : ℤ) (name key : List ℕ)
      → IsScanned a s
      → (mine ≡ pos 0 → owner_of a true key ≡ (pos 0, name))
      → IsScanned a (migrate_key s mine name key).0
  unfolding migrate_key
  migrate_key-IsScanned a s (negsuc n) name key i own = record {
    acted = i.acted;
    copied = i.copied;
    counted = i.counted;
  }
  migrate_key-IsScanned a s (pos (suc n)) name key i own = record {
    acted = i.acted;
    copied = i.copied;
    counted = i.counted;
  }
  migrate_key-IsScanned a s (pos zero) name key i own =
      fetched-IsScanned a s name key _ _ i (own refl)
        (ap (λ (n : Node H). (H.fetch n.storage key).1) (sym i.acted))

  -- What follows the test of the ownership of a key.
  abbrev pub turn :
      Scan H → List ℕ → List (List ℕ) → Outcome (Node H × ℤ × List ℕ) → Outcome (Scan H × Bool)
  turn s key keys r = do
    (b, mine, name) ← r
    let (t, goes_on) = migrate_key (record s { node = b }) mine name key
    (if goes_on then migrate_keys keys t else done (t, false))

  turn-IsScanned :
      (a : Node H) (s t : Scan H) (key : List ℕ) (keys : List (List ℕ)) (finished : Bool)
      (r : Outcome (Node H × ℤ × List ℕ))
      → IsScanned a s
      → ((b : Node H) (mine : ℤ) (name : List ℕ)
          → r ≡ done (b, mine, name)
          → (b ≡ since a b.actions) × (mine ≡ pos 0 → owner_of a true key ≡ (pos 0, name)))
      → ((u : Scan H) → IsScanned a u → migrate_keys keys u ≡ done (t, finished) → IsScanned a t)
      → turn s key keys r ≡ done (t, finished)
      → IsScanned a t
  turn-IsScanned a s t key keys finished stuck i own rec e = absurd (stuck-ne-done _ e)
  turn-IsScanned a s t key keys finished (done (b, mine, name)) i own rec e =
      let (acted, owner) = own b mine name refl in
      let j =
        migrate_key-IsScanned a (record s { node = b }) mine name key
          (record { acted = acted; copied = i.copied; counted = i.counted }) owner in
      elim (Bool-cases (migrate_key (record s { node = b }) mine name key).1) [
        | inl on ↦ rec _ j (rw on at e)
        | inr off ↦
            let e' : done ((migrate_key (record s { node = b }) mine name key).0, false)
                ≡ done (t, finished) =
              rw off at e in
            subst (IsScanned a) (ap (λ (p : Scan H × Bool). p.0) (done_inj _ _ e')) j
      ]

  pub migrate_keys-IsScanned :
      (a : Node H) (keys : List (List ℕ)) (s t : Scan H) (finished : Bool)
      → IsScanned a s
      → migrate_keys keys s ≡ done (t, finished)
      → IsScanned a t
  unfolding migrate_keys
  migrate_keys-IsScanned a [] s t finished i e =
      subst (IsScanned a) (ap (λ (p : Scan H × Bool). p.0) (done_inj _ _ e)) i
  migrate_keys-IsScanned a (key ∷ keys) s t finished i e =
      turn-IsScanned a s t key keys finished (test_ownership s.node key true) i
        (λ b mine name q.
          test_ownership-acted a b s.node.actions key name mine
            (subst (λ (n : Node H). test_ownership n key true ≡ done (b, mine, name)) i.acted q))
        (λ u j q. migrate_keys-IsScanned a keys u t finished j q) e
