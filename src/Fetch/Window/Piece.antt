-- ===== src/Fetch/Window/Piece.antt =====
-- One piece of a value, for shardcache_get_async_helper of src/shardcache.c.
use libgroupcache.Base.{
  ℕ, ◌+◌, ◌-◌, ◌^◌, ◌<◌, ◌≤◌, true, false, not, ◌&&◌, Bool-cases, some, List, [], ◌∷◌, ◌++◌,
  append-nil, length, length-append, length-drop, take, drop, ltb, ◌==◌, ◌≡◌, refl, sym, ap, ◌∙◌,
  subst, inl, inr, arith,
}
use libgroupcache.Base.Words.{add64}
use libgroupcache.Fetch.Takes.{
  drop-past, drop-later, drop-within, take-append, take-past, length-take, length-take_within,
}
use libgroupcache.Fetch.Window.{Window, helper, window}

append-empty : (xs ys : List ℕ) → (length ys == 0) ≡ true → xs ≡ xs ++ ys
append-empty xs [] h = sym (append-nil xs)
append-empty xs (y ∷ ys) h = absurd (ground arith)

-- A window that is right for the bytes that were seen.
pub record IsOpen (offset len : ℕ) (seen : List ℕ) (w : Window) : Type 0 where
  pub from : w.offset ≡ offset
  pub limit : w.len ≡ len
  pub passed : w.dlen ≡ length seen
  pub counted : w.sent ≡ length w.out
  pub right : w.out ≡ window offset len seen

-- One piece, with no limit.
pub helper-unlimited :
    (offset : ℕ) (seen bytes : List ℕ) (w : Window)
    → length seen + length bytes < 2 ^ 31
    → IsOpen offset 0 seen w
    → (v : Window) × (helper bytes w ≡ some v) × IsOpen offset 0 (seen ++ bytes) v
unfolding helper window
helper-unlimited offset seen bytes w small i =
    let n = length bytes in
    let len = length-append seen bytes in
    let passed : add64 w.dlen n ≡ length (seen ++ bytes) = let p = i.passed in ground arith in
    let no_limit : (w.len == 0) ≡ true = let z = i.limit in ground arith in
    let f = i.from in
    let p = i.passed in
    let k = i.counted in
    elim (Bool-cases (n == 0)) [
      | inl nothing ↦ (
        w,
        rw nothing refl,
        subst (λ (xs : List ℕ). IsOpen offset 0 xs w) (append-empty seen bytes nothing) i,
      )
      | inr bytes_there ↦ elim (Bool-cases (ltb w.offset (add64 w.dlen n))) [
        | inr before ↦ (
          record w { dlen = add64 w.dlen n },
          rw (bytes_there, before) refl,
          record {
            from = i.from;
            limit = i.limit;
            passed = passed;
            counted = i.counted;
            right =
                i.right
                ∙ drop-past offset seen (ground arith)
                ∙ sym (drop-past offset (seen ++ bytes) (ground arith));
          },
        )
        | inl reached ↦ elim (Bool-cases (ltb w.dlen w.offset)) [
          | inl across ↦
              (let rest = drop (w.offset - w.dlen) bytes in
                let none_yet : w.out ≡ [] = i.right ∙ drop-past offset seen (ground arith) in
                let same : w.offset - w.dlen ≡ offset - length seen = ground arith in
                let sent_none : length w.out ≡ 0 = ap (λ (xs : List ℕ). length xs) none_yet in
                let l1 = length-append w.out rest in
                let l2 = length-drop (w.offset - w.dlen) bytes in
                (
                  record w {
                    dlen = add64 w.dlen n;
                    sent = add64 w.sent (n - (w.offset - w.dlen));
                    out = w.out ++ rest;
                  },
                  rw (bytes_there, reached, across) refl,
                  record {
                    from = i.from;
                    limit = i.limit;
                    passed = passed;
                    counted = ground arith;
                    right =
                        ap (λ (xs : List ℕ). xs ++ rest) none_yet
                        ∙ ap (λ (m : ℕ). drop m bytes) same
                        ∙ sym (drop-later offset seen bytes (ground arith));
                  },
                ))
          | inr after ↦
              (let l1 = length-append w.out bytes in
                let shorter : length w.out ≤ length seen =
                  let l3 = length-drop offset seen in
                  let e = ap (λ (xs : List ℕ). length xs) i.right in ground arith in
                (
                  record w { dlen = add64 w.dlen n; sent = add64 w.sent n; out = w.out ++ bytes },
                  rw (bytes_there, reached, after, no_limit) refl,
                  record {
                    from = i.from;
                    limit = i.limit;
                    passed = passed;
                    counted = ground arith;
                    right =
                        ap (λ (xs : List ℕ). xs ++ bytes) i.right
                        ∙ sym (drop-within offset seen bytes (ground arith));
                  },
                ))
        ]
      ]
    ]

window-start : (len : ℕ) (xs : List ℕ) → 1 ≤ len → window 0 len xs ≡ take len xs
unfolding window
window-start len xs h = let some_len : (len == 0) ≡ false = ground arith in rw some_len refl

-- One piece, with a limit, from the start of the value.
pub helper-start :
    (len : ℕ) (seen bytes : List ℕ) (w : Window)
    → 1 ≤ len
    → len < 2 ^ 31
    → length seen + length bytes < 2 ^ 31
    → IsOpen 0 len seen w
    → (v : Window) × (helper bytes w ≡ some v) × IsOpen 0 len (seen ++ bytes) v
unfolding helper
helper-start len seen bytes w one short small i =
    let n = length bytes in
    let lim = i.limit in
    let f = i.from in
    let p = i.passed in
    let k = i.counted in
    let len_seen = length-append seen bytes in
    let passed : add64 w.dlen n ≡ length (seen ++ bytes) = ground arith in
    let right : w.out ≡ take len seen = i.right ∙ window-start len seen one in
    let sent : w.sent ≡ length (take len seen) =
      i.counted ∙ ap (λ (xs : List ℕ). length xs) right in
    let most = length-take len seen in
    let whole = take-append len seen bytes in
    let after : ltb w.dlen w.offset ≡ false = ground arith in
    elim (Bool-cases (n == 0)) [
      | inl nothing ↦ (
        w,
        rw nothing refl,
        subst (λ (xs : List ℕ). IsOpen 0 len xs w) (append-empty seen bytes nothing) i,
      )
      | inr bytes_there ↦
          (let reached : ltb w.offset (add64 w.dlen n) ≡ true = ground arith in
            elim (Bool-cases (not (w.len == 0) && ltb w.len (add64 w.sent n))) [
              | inl over ↦
                  (let fine : ltb w.len w.sent ≡ false = ground arith in
                    let left : w.len - w.sent ≡ len - length (take len seen) = ground arith in
                    let part = take (w.len - w.sent) bytes in
                    let l1 = length-append w.out part in
                    let l2 : length part ≡ w.len - w.sent =
                      length-take_within (w.len - w.sent) bytes (ground arith) in
                    (
                      record w {
                        dlen = add64 w.dlen n;
                        sent = add64 w.sent (w.len - w.sent);
                        out = w.out ++ part;
                      },
                      rw (bytes_there, reached, after, over, fine) refl,
                      record {
                        from = i.from;
                        limit = i.limit;
                        passed = passed;
                        counted = ground arith;
                        right =
                            ap (λ (xs : List ℕ). xs ++ part) right
                            ∙ ap (λ (m : ℕ). take len seen ++ take m bytes) left
                            ∙ sym whole
                            ∙ sym (window-start len (seen ++ bytes) one);
                      },
                    ))
              | inr under ↦
                  (let l1 = length-append w.out bytes in
                    let all : take (len - length (take len seen)) bytes ≡ bytes =
                      take-past _ bytes (ground arith) in
                    (
                      record w {
                        dlen = add64 w.dlen n;
                        sent = add64 w.sent n;
                        out = w.out ++ bytes;
                      },
                      rw (bytes_there, reached, after, under) refl,
                      record {
                        from = i.from;
                        limit = i.limit;
                        passed = passed;
                        counted = ground arith;
                        right =
                            ap (λ (xs : List ℕ). xs ++ bytes) right
                            ∙ ap (λ (xs : List ℕ). take len seen ++ xs) (sym all)
                            ∙ sym whole
                            ∙ sym (window-start len (seen ++ bytes) one);
                      },
                    ))
            ])
    ]
