-- ===== src/Serving/Order/Steps.antt =====
-- That the answers of a connection of src/serving.c are sent in the order of its requests.
use libgroupcache.Base.{Bool, Option, none, List}
use libgroupcache.Serving.Order.{Waiting, Connection, Saw}

Saw-none : (ws : List Waiting) → Saw none ws
Saw-none ws = tt

-- The connection with its parts named, so that they can be matched on.
abbrev with_parts : Option Bool → List Waiting → Connection → Connection
with_parts l ws c = record c { looked = l; requests = ws }
