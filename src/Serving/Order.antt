-- ===== src/Serving/Order.antt =====
-- The pipelined requests of a connection of src/serving.c, which other threads answer, and the output
-- handler that sends what they write.
--
-- A run is a sequence of events in any order: the output handler reads `done` in one, and takes the
-- output in another, so that other threads may write between the two. Each request has what it ever
-- wrote, for the theorem, and does not write after it is done. Of a closed connection nothing more is
-- modelled.
pub mod Changes
pub mod Steps
use libgroupcache.Base.{
  ℕ, zero, suc, ◌+◌, ◌≤◌, ◌≡◌, refl, sym, ap, ◌∙◌, Bool, true, false, Option, none, some, List, [],
  ◌∷◌, ◌++◌, map, append_assoc, append-nil, All, arith, ltb, ◌==◌, if◌then◌else◌, if_both,
}

-- A request that waits in ctx->requests.
pub record Waiting : Type 0 where
  pub number : ℕ
  pub output : List ℕ
  pub written : List ℕ
  pub done : ℕ
  pub error : ℕ

-- The connection: what was sent, whether the output handler is at work and `done` was not 0, and the
-- requests that were removed, in order.
pub record Connection : Type 0 where
  pub requests : List Waiting
  pub sent : List ℕ
  pub looked : Option Bool
  pub removed : List Waiting
  pub arrived : ℕ
  pub closed : Bool

pub data ConnectionEvent : Type 0 where
  arrives : ConnectionEvent
  writes : ℕ → List ℕ → ConnectionEvent
  finishes : ℕ → ConnectionEvent
  errs : ℕ → ConnectionEvent
  looks : ConnectionEvent
  takes : ConnectionEvent

abbrev pub new_waiting : ℕ → Waiting
new_waiting n = record { number = n; output = []; written = []; done = 0; error = 0 }

-- Something happens to a request, by its place in the list.
unfoldable pub at_place : (Waiting → Waiting) → ℕ → List Waiting → List Waiting
at_place f i [] = []
at_place f zero (w ∷ ws) = f w ∷ ws
at_place f (suc i) (w ∷ ws) = w ∷ at_place f i ws

-- send_data on the output of the request
unfoldable pub write_to : List ℕ → Waiting → Waiting
write_to bytes w =
    if w.done == 0 then record w { output = w.output ++ bytes; written = w.written ++ bytes } else w

-- The start of shardcache_output_handler
unfoldable pub look : List Waiting → Connection → Connection
look [] c = c
look (w ∷ ws) c =
    if ltb 0 w.error then record c { closed = true } else record c { looked = some (ltb 0 w.done) }

-- The rest of it, which takes the output of the first request, and removes it if it was done.
unfoldable pub take_output : Option Bool → List Waiting → Connection → Connection
take_output none ws c = c
take_output (some d) [] c = record c { looked = none }
take_output (some false) (w ∷ ws) c = record c {
  requests = record w { output = [] } ∷ ws;
  sent = c.sent ++ w.output;
  looked = none;
}
take_output (some true) (w ∷ ws) c = record c {
  requests = ws;
  sent = c.sent ++ w.output;
  looked = none;
  removed = c.removed ++ (w ∷ []);
}

unfoldable pub happen : ConnectionEvent → Connection → Connection
happen arrives c = record c {
  requests = c.requests ++ (new_waiting c.arrived ∷ []);
  arrived = c.arrived + 1;
}
happen (writes i bytes) c = record c { requests = at_place (write_to bytes) i c.requests }
happen (finishes i) c = record c {
  requests = at_place (λ w. record w { done = w.done + 1 }) i c.requests;
}
happen (errs i) c = record c {
  requests = at_place (λ w. record w { error = w.error + 1 }) i c.requests;
}
happen looks c = elim c.looked [ none ↦ look c.requests c | some d ↦ c ]
happen takes c = take_output c.looked c.requests c

unfoldable pub step : ConnectionEvent → Connection → Connection
step e c = if c.closed then c else happen e c

unfoldable pub run : List ConnectionEvent → Connection → Connection
run [] c = c
run (e ∷ events) c = run events (step e c)

abbrev pub new_connection : Connection
new_connection = record {
  requests = [];
  sent = [];
  looked = none;
  removed = [];
  arrived = 0;
  closed = false;
}

-- What the requests of a list wrote, in order.
unfoldable pub all_written : List Waiting → List ℕ
all_written [] = []
all_written (w ∷ ws) = w.written ++ all_written ws

abbrev pub first_output : List Waiting → List ℕ
first_output [] = []
first_output (w ∷ ws) = w.output

abbrev pub first_written : List Waiting → List ℕ
first_written [] = []
first_written (w ∷ ws) = w.written

unfoldable pub numbers : ℕ → List ℕ
numbers zero = []
numbers (suc n) = numbers n ++ (n ∷ [])

-- The requests behind the first have sent nothing yet.
abbrev pub Unsent : Waiting → Type 0
Unsent w = w.output ≡ w.written

abbrev pub IsDone : Waiting → Type 0
IsDone w = 1 ≤ w.done

abbrev pub behind_first : List Waiting → List Waiting
behind_first [] = []
behind_first (w ∷ ws) = ws

-- The first request is done if the output handler saw so.
abbrev pub Saw : Option Bool → List Waiting → Type 0
Saw none ws = Unit
Saw (some false) ws = Unit
Saw (some true) [] = ⊥
Saw (some true) (w ∷ ws) = IsDone w

pub record InOrder (c : Connection) : Type 0 where
  pub wire : c.sent ++ first_output c.requests ≡ all_written c.removed ++ first_written c.requests
  pub unsent : All Unsent (behind_first c.requests)
  pub saw : Saw c.looked c.requests
  pub finished : All IsDone c.removed
  pub order : map (λ (w : Waiting). w.number) (c.removed ++ c.requests) ≡ numbers c.arrived
