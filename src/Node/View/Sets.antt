-- ===== src/Node/View/Sets.antt =====
-- What readers see after a set of src/shardcache.c.
use libgroupcache.Base.{
  ℕ, suc, ◌≤◌, Bool, true, false, not, ◌||◌, Option, none, some, List, length, take, take-length,
  ◌==◌, ◌≡◌, refl, sym, ap, ◌∙◌, arith, ℤ, pos,
}
use libgroupcache.Node.State.{Table, put, put-same, put-other, VolatileObject, Host, Node, done}
use libgroupcache.Node.Ownership.{is_mine}
use libgroupcache.Node.Volatile.{
  set_mode, cas_mode, remove_stored, new_volatile, replace_volatile, set_volatile, store_volatile,
  store_plain, store_value,
}
use libgroupcache.Node.Commands.{tell, set_internal, value_of}
use libgroupcache.Node.View.{HostLaws, value_of-volatile, value_of-congr, Puts, remove_stored-other}

module _ {H : Host} where
  replace_volatile-stores :
      (o : Option VolatileObject) (key : List ℕ) (vlen : ℕ) (replica : Bool) (a : Node H)
      → let b = replace_volatile o key vlen replica a in
        (b.volatile_storage ≡ a.volatile_storage)
        × (b.storage ≡ a.storage)
        × (b.use_persistent_storage ≡ a.use_persistent_storage)
  unfolding replace_volatile
  replace_volatile-stores none key vlen replica a = (refl, refl, refl)
  replace_volatile-stores (some v) key vlen replica a = (refl, refl, refl)

  pub set_volatile-Puts :
      (L : HostLaws H) (a : Node H) (key value : List ℕ) (expire : ℕ) (replica : Bool)
      → 1 ≤ length value
      → Puts a (set_volatile (remove_stored key a) key value expire replica) key value
  unfolding set_volatile
  set_volatile-Puts L a key value expire replica one =
      let b = remove_stored key a in
      let c = set_volatile b key value expire replica in
      let (v, s, u) =
        replace_volatile-stores (b.volatile_storage key) key (length value) replica (record b {
          volatile_storage = put b.volatile_storage key (new_volatile b value expire);
        }) in
      record {
        here =
            value_of-volatile c key (new_volatile b value expire)
              (ap (λ (t : Table VolatileObject). t key) v ∙ put-same b.volatile_storage key _)
              (ground arith)
            ∙ ap some (take-length value);
        others = λ j n.
            value_of-congr c a j
              (ap (λ (t : Table VolatileObject). t j) v ∙ put-other b.volatile_storage key j _ n)
              (rw (s, u) (remove_stored-other L a key j n));
      }

  -- The values that shardcache_store makes volatile.
  abbrev pub goes_volatile : Node H → ℕ → Bool
  goes_volatile a expire = not a.use_persistent_storage || (not a.has_store || not (expire == 0))

  tell-volatile :
      (b : Node H) (cb : Bool) (code rc : ℤ)
      → (tell cb code (b, rc)).0.volatile_storage ≡ b.volatile_storage
  tell-volatile b true code rc = refl
  tell-volatile b false code rc = refl

  pub tell-code : (b : Node H) (cb : Bool) (code rc : ℤ) → (tell cb code (b, rc)).1 ≡ rc
  tell-code b true code rc = refl
  tell-code b false code rc = refl

  -- shardcache_cas of a key of this node does what shardcache_set does, whatever the value that it
  -- expects: it never compares.
  pub set_internal-cas :
      (a b : Node H) (key value name : List ℕ) (prev : Option (List ℕ)) (expire cexpire n : ℕ)
      (replica cb : Bool)
      → is_mine a key ≡ done (b, pos (suc n), name)
      → set_internal a key value prev expire cexpire cas_mode replica cb
        ≡ set_internal a key value none expire cexpire set_mode replica cb
  unfolding set_internal store_value store_plain store_volatile
  set_internal-cas a b key value name prev expire cexpire n replica cb mine = rw (mine) refl

  -- A set without expiry, on a storage that stores, for a key of this node that has a volatile value
  -- with a byte: whatever its code, readers still see the old value.
  pub set_internal-shadowed :
      (a : Node H) (key value name : List ℕ) (old : VolatileObject) (cexpire n : ℕ)
      (replica cb : Bool)
      → is_mine a key ≡ done (a, pos (suc n), name)
      → a.use_persistent_storage ≡ true
      → a.has_store ≡ true
      → a.volatile_storage key ≡ some old
      → 1 ≤ old.dlen
      → 1 ≤ length key
      → 1 ≤ length value
      → (b : Node H) × (rc : ℤ) × (set_internal a key value none 0 cexpire set_mode replica cb
          ≡ done (b, rc))
        × (value_of b key ≡ value_of a key)
        × (value_of a key ≡ some (take old.dlen old.content))
  unfolding set_internal store_value store_plain store_volatile
  set_internal-shadowed a key value name old cexpire n replica cb mine persistent st v some_byte k
        one =
      let s = store_value a key value none 0 set_mode replica in
      let full : ((length key == 0) || (length value == 0)) ≡ false = ground arith in
      let stores : goes_volatile a 0 ≡ false = rw (persistent, st) refl in
      let byte : (old.dlen == 0) ≡ false = ground arith in
      let kept : (tell cb s.1 s).0.volatile_storage key ≡ some old =
        ap (λ (t : Table VolatileObject). t key) (tell-volatile s.0 cb s.1 s.1) ∙ rw stores v in
      (
        (tell cb s.1 s).0,
        (tell cb s.1 s).1,
        rw full (rw mine refl),
        value_of-volatile _ key old kept byte ∙ sym (value_of-volatile a key old v byte),
        value_of-volatile a key old v byte,
      )
