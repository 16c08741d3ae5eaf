-- ===== src/Arc/Invariant.antt =====
-- The invariant of the cache of src/arc.c: the lists and the objects' state pointers agree, and
-- the sizes and counts of the lists are those of their objects, modulo the word size.
pub mod Writes
use libgroupcache.Base.{
  ℕ, ◌+◌, ◌%◌, ◌^◌, ◌<◌, ◌≡◌, refl, Bool, true, false, Option, none, some, List, [], ◌∷◌, arith,
  length, elem, erase, Distinct, ◌==◌, if◌then◌else◌, update, elem-erase, erase-Distinct,
  length-erase, Bool-cases, inl, inr,
}
use libgroupcache.Base.Words.{u64_mod, add64, sub64}
use libgroupcache.Arc.State.{
  HashTable, ListName, mrug, mru, mfu, mfug, same, is_at, ArcState, Object, Cache, set_list,
  set_object, attach, detach, touch, forget, heads,
}

-- The bytes that a list holds.
unfoldable pub total : (ℕ → Object) → List ℕ → ℕ
total objs [] = 0
total objs (x ∷ xs) = (objs x).size + total objs xs

pub total-update :
    (objs : ℕ → Object) (o : ℕ) (v : Object) (xs : List ℕ)
    → elem o xs ≡ false
    → total (update objs o v) xs ≡ total objs xs
unfolding total
total-update objs o v [] h = refl
total-update objs o v (x ∷ xs) h = ground (arith, total-update objs o v xs)

pub total_same_size :
    (objs : ℕ → Object) (o : ℕ) (v : Object) (xs : List ℕ)
    → v.size ≡ (objs o).size
    → total (update objs o v) xs ≡ total objs xs
unfolding total
total_same_size objs o v [] h = refl
total_same_size objs o v (x ∷ xs) h = ground (arith, total_same_size objs o v xs h)

pub total-erase :
    (objs : ℕ → Object) (o : ℕ) (xs : List ℕ)
    → elem o xs ≡ true
    → total objs (erase o xs) + (objs o).size ≡ total objs xs
unfolding total
total-erase objs o [] h = ground arith
total-erase objs o (x ∷ xs) h = ground (arith, total-erase objs o xs)

-- One list against the objects.
pub record ListInv (objs : ℕ → Object) (l : ListName) (s : ArcState) : Type 0 where
  pub distinct : Distinct s.items
  pub members : (o : ℕ) → elem o s.items ≡ is_at (objs o).state l
  pub sized : s.size ≡ total objs s.items % 2 ^ 64
  pub counted : s.count ≡ length s.items % 2 ^ 64

-- An object being fetched is in no list, and every size fits a word.
pub record ObjectInv (v : Object) : Type 0 where
  pub fetched : v.locked ≡ true → v.state ≡ none
  pub fits : v.size < 2 ^ 64

pub record Inv {H : HashTable} (a : Cache H) : Type 0 where
  pub lists : (l : ListName) → ListInv a.objs l (a.lists l)
  pub objects : (o : ℕ) → ObjectInv (a.objs o)

module _ (objs : ℕ → Object) (o : ℕ) (v : Object) where
  -- A write to an object that leaves its list and size alone.
  pub rewrite-ListInv :
      (l : ListName) (s : ArcState)
      → v.state ≡ (objs o).state
      → v.size ≡ (objs o).size
      → ListInv objs l s
      → ListInv (update objs o v) l s
  rewrite-ListInv l s e f i = record {
    distinct = i.distinct;
    members = λ x. ground (arith, i.members x);
    sized = ground (arith, i.sized, total_same_size objs o v s.items f);
    counted = i.counted;
  }

  -- A write to an object that is in another list, or in none, before and after.
  pub frame-ListInv :
      (l : ListName) (s : ArcState)
      → is_at (objs o).state l ≡ false
      → is_at v.state l ≡ false
      → ListInv objs l s
      → ListInv (update objs o v) l s
  frame-ListInv l s e f i = record {
    distinct = i.distinct;
    members = λ x. ground (arith, i.members x);
    sized = ground (arith, i.sized, i.members o, total-update objs o v s.items);
    counted = i.counted;
  }

  pub attach-ListInv :
      (l : ListName) (s : ArcState)
      → (objs o).state ≡ none
      → v.state ≡ some l
      → ListInv objs l s
      → ListInv
          (update objs o v)
          l
          (record { items = o ∷ s.items; size = add64 s.size v.size; count = add64 s.count 1 })
  unfolding total
  attach-ListInv l s e f i = record {
    distinct = (ground (arith, i.members o), i.distinct);
    members = λ x. ground (arith, i.members x);
    sized = ground (arith, i.sized, i.members o, total-update objs o v s.items);
    counted = ground (arith, i.counted);
  }

  pub detach-ListInv :
      (l : ListName) (s : ArcState)
      → (objs o).state ≡ some l
      → v.state ≡ none
      → (objs o).size < 2 ^ 64
      → ListInv objs l s
      → ListInv (update objs o v) l (record {
        items = erase o s.items;
        size = sub64 s.size (objs o).size;
        count = sub64 s.count 1;
      })
  detach-ListInv l s e f b i = record {
    distinct = erase-Distinct o s.items i.distinct;
    members = λ x. ground (arith, i.members x, elem-erase o x s.items i.distinct);
    sized = ground (
      arith,
      i.sized,
      i.members o,
      elem-erase o o s.items i.distinct,
      total-update objs o v (erase o s.items),
      total-erase objs o s.items,
    );
    counted = ground (arith, i.counted, i.members o, length-erase o s.items);
  }

-- Moving a member to the front.
pub front-ListInv :
    (objs : ℕ → Object) (o : ℕ) (l : ListName) (s : ArcState)
    → (objs o).state ≡ some l
    → ListInv objs l s
    → ListInv objs l (record s { items = o ∷ erase o s.items })
unfolding total
front-ListInv objs o l s e i = record {
  distinct =
      (ground (arith, elem-erase o o s.items i.distinct), erase-Distinct o s.items i.distinct);
  members = λ x. ground (arith, i.members x, i.members o, elem-erase o x s.items i.distinct);
  sized = ground (arith, i.sized, i.members o, total-erase objs o s.items);
  counted = ground (arith, i.counted, i.members o, length-erase o s.items);
}
