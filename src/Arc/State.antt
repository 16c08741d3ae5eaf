-- ===== src/Arc/State.antt =====
-- The state of src/arc.c: struct _arc, arc_state_t, arc_object_t, and the routines that attach an
-- object to one of the four lists, take it off and move it to the front.
--
-- A list is the sequence of its objects, the most recent first. An
-- object is named by a number, since pointers are only compared. The hash table and the reference
-- counter are libraries: the table is a parameter, and calls of the counter are kept in a trace.
use libgroupcache.Base.{
  ℕ, Bool, false, Option, none, some, List, [], ◌∷◌, length, erase, leb, ◌==◌, if◌then◌else◌,
  update,
}
use libgroupcache.Base.Words.{add64, sub64}

-- What src/arc.c calls of the hash table library.
pub record HashTable : Type 1 where
  pub Table : Type 0
  -- ht_create
  pub empty : Table
  -- ht_get_deep_copy, ht_get
  pub get : Table → List ℕ → Option ℕ
  -- ht_set_if_not_exists: 0 stored, 1 there is a value already, 2 for the codes of failures
  pub set_if_not_exists : Table → List ℕ → ℕ → Table × ℕ
  -- ht_delete_if_equals: true where it returns 0, that is where it removed the value
  pub delete_if_equals : Table → List ℕ → ℕ → Table × Bool

-- The four lists.
pub data ListName : Type 0 where
  mrug mru mfu mfug : ListName

abbrev pub index : ListName → ℕ
index mrug = 0
index mru = 1
index mfu = 2
index mfug = 3

abbrev pub same : ListName → ListName → Bool
same a b = index a == index b

-- Whether a state pointer, NULL or one of the lists, is the given list.
abbrev pub is_at : Option ListName → ListName → Bool
is_at none l = false
is_at (some k) l = same k l

-- arc_state_t
pub record ArcState : Type 0 where
  pub items : List ℕ
  pub size : ℕ
  pub count : ℕ

-- arc_object_t; `klen` is the length of the key.
pub record Object : Type 0 where
  pub state : Option ListName
  pub size : ℕ
  pub key : List ℕ
  pub async : Bool
  pub locked : Bool

-- A call of the reference counter: new_node, retain_ref, release_ref.
pub data RefCall : Type 0 where
  create retain release : ℕ → RefCall

-- sizeof(arc_object_t): seven words, the list links, a buffer of 32 bytes and two integers, packed.
abbrev pub sizeof_object : ℕ
sizeof_object = 104

abbrev pub sizeof_buf : ℕ
sizeof_buf = 32

-- ARC_OBJ_BASE_SIZE: a key that fits the buffer is kept in it.
unfoldable pub base_size : Object → ℕ
base_size o = add64 sizeof_object (if leb (length o.key) sizeof_buf then 0 else length o.key)

-- struct _arc. The trace `refs` has the latest call first; `next` numbers new objects.
pub record Cache (H : HashTable) : Type 0 where
  pub hash : H.Table
  pub c : ℕ
  pub p : ℕ
  pub cos : ℕ
  pub lists : ListName → ArcState
  pub objs : ℕ → Object
  pub needs_balance : ℕ
  pub mode : Bool
  pub refs : List RefCall
  pub next : ℕ

abbrev pub heads : ℕ → List ℕ → Bool
heads o [] = false
heads o (x ∷ xs) = o == x

module _ {H : HashTable} where
  abbrev pub set_list : ListName → ArcState → Cache H → Cache H
  set_list l s a = record a { lists = λ k. if same k l then s else a.lists k }

  abbrev pub set_object : ℕ → Object → Cache H → Cache H
  set_object o v a = record a { objs = update a.objs o v }

  abbrev pub note : RefCall → Cache H → Cache H
  note r a = record a { refs = r ∷ a.refs }

  -- arc_list_prepend; count and size grow, and the object points to the list.
  unfoldable pub attach : ListName → ℕ → Cache H → Cache H
  attach l o a =
      let s = a.lists l in
      let obj = a.objs o in
      set_object o (record obj { state = some l })
        (set_list l
          (record { items = o ∷ s.items; size = add64 s.size obj.size; count = add64 s.count 1 }) a)

  -- arc_list_remove; size and count shrink, and the object points to no list.
  unfoldable pub detach : ListName → ℕ → Cache H → Cache H
  detach l o a =
      let s = a.lists l in
      let obj = a.objs o in
      set_object o (record obj { state = none })
        (set_list l
          (record {
            items = erase o s.items;
            size = sub64 s.size obj.size;
            count = sub64 s.count 1;
          })
          a)

  -- arc_list_move_to_head, unless the object is the first one already.
  unfoldable pub touch : ListName → ℕ → Cache H → Cache H
  touch l o a =
      let s = a.lists l in
      if heads o s.items then a else set_list l (record s { items = o ∷ erase o s.items }) a

  -- ht_delete_if_equals, with the release of the table's reference where the object was in it.
  unfoldable pub forget : ℕ → Cache H → Cache H
  forget o a =
      let (hash', deleted) = H.delete_if_equals a.hash (a.objs o).key o in
      let b : Cache H = record a { hash = hash' } in if deleted then note (release o) b else b
