-- ===== src/Fetch/Window.antt =====
-- The part of a value that a caller of shardcache_get_offset in src/shardcache.c gets, while the value
-- arrives in pieces: shardcache_get_async_helper.
pub mod Piece
pub mod Whole
use libgroupcache.Base.{
  ℕ, ◌+◌, ◌-◌, ◌^◌, ◌<◌, ◌≤◌, Bool, true, false, not, ◌&&◌, Bool-cases, Option, none, some, List,
  [], ◌∷◌, ◌++◌, append_assoc, append-nil, length, length-append, length-drop, take, drop, ltb,
  ◌==◌, if◌then◌else◌, ◌≡◌, ◌⊎◌, refl, sym, ap, ◌∙◌, subst, inl, inr, arith,
}
use libgroupcache.Base.Words.{add64}
use libgroupcache.Fetch.Takes.{
  drop-past, drop-later, drop-within, take-append, take-past, length-take, length-take_within,
}
use libgroupcache.Fetch.Stream.{concat}

-- shardcache_get_async_helper_arg_t, with the bytes that the callback got.
pub record Window : Type 0 where
  pub dlen : ℕ
  pub offset : ℕ
  pub len : ℕ
  pub sent : ℕ
  pub out : List ℕ

-- shardcache_get_async_helper, for a piece of fewer than 2 ^ 31 bytes, so that `diff` fits, and a
-- callback that answers 0. The result is none where `diff` is negative: its length, as a size_t, is
-- more than the piece has.
unfoldable pub helper : List ℕ → Window → Option Window
helper bytes w =
    let n = length bytes in
    let seen = record w { dlen = add64 w.dlen n } in
    let diff = w.offset - w.dlen in
    let left = w.len - w.sent in
    if n == 0
    then some w
    else if not (ltb w.offset (add64 w.dlen n))
    then some seen
    else if ltb w.dlen w.offset
    then some (record seen { sent = add64 w.sent (n - diff); out = w.out ++ drop diff bytes })
    else if not (w.len == 0) && ltb w.len (add64 w.sent n)
    then (if ltb w.len w.sent
        then none
        else some (record seen { sent = add64 w.sent left; out = w.out ++ take left bytes }))
    else some (record seen { sent = add64 w.sent n; out = w.out ++ bytes })

unfoldable pub helper_all : List (List ℕ) → Window → Option Window
helper_all [] w = some w
helper_all (c ∷ cs) w = elim (helper c w) [ none ↦ none | some v ↦ helper_all cs v ]

-- The bytes from the offset on, and so many of them if a length is given.
unfoldable pub window : ℕ → ℕ → List ℕ → List ℕ
window offset len xs = if len == 0 then drop offset xs else take len (drop offset xs)

-- The window before the first piece.
abbrev pub opened : ℕ → ℕ → Window
opened offset len = record { dlen = 0; offset = offset; len = len; sent = 0; out = [] }
