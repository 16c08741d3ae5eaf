-- ===== src/Description/Tests.antt =====
-- A node of src/shardcache_node.c with two addresses.
use libgroupcache.Base.{ℕ, some, List, [], ◌∷◌, ◌≡◌, refl}
use libgroupcache.Description.{
  Description, node_create, create_from_string, check_address, is_host_char, check_rest,
  all_checked, ends_with_port, all_digits,
}
use libgroupcache.Description.RoundTrip.{create_from_string-node_create}

-- "a.b:80" and "c"
abbrev first : List ℕ
first = 97 ∷ 46 ∷ 98 ∷ 58 ∷ 56 ∷ 48 ∷ []

abbrev second : List ℕ
second = 99 ∷ []

create_from_string-node_create_example :
    (d : Description) × (node_create (112 ∷ []) (first ∷ second ∷ []) ≡ some d)
    × (create_from_string d.string ≡ some d)
    × (d.label ≡ 112 ∷ [])
    × (d.address ≡ first ∷ second ∷ [])
unfolding all_checked check_address is_host_char check_rest ends_with_port all_digits
create_from_string-node_create_example =
    create_from_string-node_create (112 ∷ []) first (second ∷ []) refl refl
