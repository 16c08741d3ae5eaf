-- ===== src/Serving/Order/Changes.antt =====
-- Changes of a request of a connection of src/serving.c that keep what was written in step.
use libgroupcache.Base.{
  ℕ, zero, suc, ◌+◌, ◌≡◌, refl, sym, ap, ◌∙◌, Bool, true, false, Option, none, some, List, [], ◌∷◌,
  ◌++◌, map, append_assoc, All, arith, ◌==◌, if_both,
}
use libgroupcache.Serving.Order.{
  Waiting, Connection, at_place, write_to, all_written, first_output, first_written, Unsent, IsDone,
  behind_first, Saw, InOrder,
}

-- A change of a request that keeps what was written in step with the output.
pub record Harmless (f : Waiting → Waiting) : Type 0 where
  pub number : (w : Waiting) → (f w).number ≡ w.number
  pub unsent : (w : Waiting) → Unsent w → Unsent (f w)
  pub done : (w : Waiting) → IsDone w → IsDone (f w)
  pub wire :
      (w : Waiting) (sent xs : List ℕ)
      → sent ++ w.output ≡ xs ++ w.written
      → sent ++ (f w).output ≡ xs ++ (f w).written

pub write_to-Harmless : (bytes : List ℕ) → Harmless (write_to bytes)
unfolding write_to
write_to-Harmless bytes = record {
  number = λ w. if_both (λ (t : Waiting). t.number ≡ w.number) (w.done == 0) _ _ refl refl;
  unsent = λ w u. if_both Unsent (w.done == 0) _ _ (ap (λ t. t ++ bytes) u) u;
  done = λ w d. if_both IsDone (w.done == 0) _ _ d d;
  wire = λ w sent xs e.
      if_both (λ (t : Waiting). sent ++ t.output ≡ xs ++ t.written) (w.done == 0) _ _
        (sym (append_assoc sent w.output bytes)
          ∙ ap (λ t. t ++ bytes) e
          ∙ append_assoc xs w.written bytes)
        e;
}

pub finish-Harmless : Harmless (λ w. record w { done = w.done + 1 })
finish-Harmless = record {
  number = λ w. refl;
  unsent = λ w u. u;
  done = λ w d. omega arith;
  wire = λ w sent xs e. e;
}

pub err-Harmless : Harmless (λ w. record w { error = w.error + 1 })
err-Harmless = record {
  number = λ w. refl;
  unsent = λ w u. u;
  done = λ w d. d;
  wire = λ w sent xs e. e;
}

module _ (f : Waiting → Waiting) (h : Harmless f) where
  Unsent-at : (i : ℕ) (ws : List Waiting) → All Unsent ws → All Unsent (at_place f i ws)
  unfolding at_place
  Unsent-at i [] u = tt
  Unsent-at zero (w ∷ ws) u = (h.unsent w u.0, u.1)
  Unsent-at (suc i) (w ∷ ws) u = (u.0, Unsent-at i ws u.1)

  later_at :
      (i : ℕ) (ws : List Waiting)
      → All Unsent (behind_first ws)
      → All Unsent (behind_first (at_place f i ws))
  unfolding at_place
  later_at i [] u = tt
  later_at zero (w ∷ ws) u = u
  later_at (suc i) (w ∷ ws) u = Unsent-at i ws u

  wire_at :
      (i : ℕ) (ws : List Waiting) (sent xs : List ℕ)
      → sent ++ first_output ws ≡ xs ++ first_written ws
      → sent ++ first_output (at_place f i ws) ≡ xs ++ first_written (at_place f i ws)
  unfolding at_place
  wire_at i [] sent xs e = e
  wire_at zero (w ∷ ws) sent xs e = h.wire w sent xs e
  wire_at (suc i) (w ∷ ws) sent xs e = e

  Saw-at : (i : ℕ) (l : Option Bool) (ws : List Waiting) → Saw l ws → Saw l (at_place f i ws)
  unfolding at_place
  Saw-at i none ws s = tt
  Saw-at i (some false) ws s = tt
  Saw-at i (some true) [] s = absurd s
  Saw-at zero (some true) (w ∷ ws) s = h.done w s
  Saw-at (suc i) (some true) (w ∷ ws) s = s

  numbers_at :
      (i : ℕ) (ws : List Waiting)
      → map (λ (w : Waiting). w.number) (at_place f i ws) ≡ map (λ (w : Waiting). w.number) ws
  unfolding at_place
  numbers_at i [] = refl
  numbers_at zero (w ∷ ws) = ap (λ n. n ∷ map (λ (w : Waiting). w.number) ws) (h.number w)
  numbers_at (suc i) (w ∷ ws) = ap (◌∷◌ w.number) (numbers_at i ws)

  order_at :
      (i : ℕ) (gone ws : List Waiting)
      → map (λ (w : Waiting). w.number) (gone ++ at_place f i ws)
        ≡ map (λ (w : Waiting). w.number) (gone ++ ws)
  order_at i [] ws = numbers_at i ws
  order_at i (g ∷ gone) ws = ap (◌∷◌ g.number) (order_at i gone ws)

  pub at_place-InOrder :
      (i : ℕ) (c : Connection)
      → InOrder c
      → InOrder (record c { requests = at_place f i c.requests })
  at_place-InOrder i c o = record {
    wire = wire_at i c.requests c.sent (all_written c.removed) o.wire;
    unsent = later_at i c.requests o.unsent;
    saw = Saw-at i c.looked c.requests o.saw;
    finished = o.finished;
    order = order_at i c.removed c.requests ∙ o.order;
  }
