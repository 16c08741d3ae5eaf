-- ===== src/Serving/Tests.antt =====
-- The answers of src/serving.c on small inputs.
use libgroupcache.Base.{ℕ, ◌≡◌, refl, true, false, List, [], ◌∷◌, ◌++◌, arith, ℤ, pos}
use libgroupcache.Base.Bytes.{be32}
use libgroupcache.AsyncReader.{Ctx, ended, reading_done, update_ctx, new_ctx}
use libgroupcache.Messaging.{
  build_message, hdr_get, hdr_get_offset, hdr_set, hdr_exists, hdr_response, res_ok, res_err,
  boolean_mode, simple_mode, rc_to_status,
}
use libgroupcache.Messaging.Socket.{arrives, interrupted, socket}
use libgroupcache.Messaging.Read.Steady.{Steady}
use libgroupcache.Messaging.Peers.{Conn, mode_set, hdr_of, send_records, exists_on_peer}
use libgroupcache.Messaging.Peers.Status.{Answered}
use libgroupcache.Serving.{
  Request, status_bytes, status_array, status_delta, handle_all, get_async_data_handler,
  begin_value, preamble, record_size, epilogue, epilogue_bytes, v2_data, finish_value, flush,
  offset_record,
}
use libgroupcache.Serving.Get.{parts, joined, get_async_data_handler-build_message}
use libgroupcache.Serving.Status.{exists_result, exists_on_peer-status_bytes}
use libgroupcache.Serving.Decode.{records_after, handler_answers, set_args}
use libgroupcache.Serving.Decode.Commands.{set_call, expire_got, cexpire_got, set_args-send_records}
use libgroupcache.Serving.Order.{
  ConnectionEvent, arrives, writes, finishes, looks, takes, at_place, write_to, look, take_output,
  happen, step, run, new_connection,
}

abbrev key : List ℕ
key = 107 ∷ []

-- A request for a value that comes in three pieces.
abbrev get_request : Request
get_request = record {
  hdr = hdr_get;
  version = 2;
  records = key ∷ [] ∷ [] ∷ [] ∷ [] ∷ [];
  output = [];
  accumulator = [];
  copied = 0;
  done = 0;
  error = 0;
}

abbrev pieces : List (List ℕ)
pieces = (1 ∷ 2 ∷ []) ∷ (3 ∷ []) ∷ []

get_async_data_handler-build_message_example :
    (handle_all (parts 4 pieces (4 ∷ [])) get_request).output
    ≡ [] ++ build_message hdr_response (joined pieces (4 ∷ []) ∷ (res_ok ∷ []) ∷ []) 2
unfolding joined
get_async_data_handler-build_message_example =
    get_async_data_handler-build_message 4 pieces (4 ∷ []) get_request (refl, refl) refl
      (omega arith, (omega arith, tt)) refl (omega arith) (omega arith)

abbrev get_conn : Conn
get_conn = record {
  written = [];
  writable = true;
  sock =
      socket ((handle_all (parts 4 pieces (4 ∷ [])) get_request).output ++ (144 ∷ []))
        (libgroupcache.Messaging.Socket.arrives 3 ∷ interrupted ∷ []);
}

abbrev exists_conn : Conn
exists_conn = record {
  written = [];
  writable = true;
  sock = socket (status_bytes hdr_exists 2 boolean_mode (pos 1) ++ []) [];
}

exists_on_peer-status_bytes_example :
    (c' : Conn) × ◌≡◌ {A = ℤ × Conn}
      (exists_on_peer key true exists_conn)
      (exists_result (pos 1), c')
    × Answered exists_conn c' hdr_exists (key ∷ []) []
unfolding Steady
exists_on_peer-status_bytes_example =
    exists_on_peer-status_bytes key (pos 1) exists_conn []
      (record { writes = refl; comes = refl; steady = tt })

set_args-send_records_example :
    (b : Ctx) × (update_ctx handler_answers (record new_ctx {
      buf = build_message (hdr_of mode_set) (send_records mode_set key (1 ∷ 2 ∷ []) [] 60 30) 2;
    })
      ≡ ended b)
    × (b.state ≡ reading_done)
    × (b.hdr ≡ hdr_of mode_set)
    × (set_args (records_after b.calls)
        ≡ set_call key (1 ∷ 2 ∷ []) (expire_got 60 30) (cexpire_got 60 30))
set_args-send_records_example =
    set_args-send_records mode_set key (1 ∷ 2 ∷ []) 60 30 (λ e. cc) (omega arith, omega arith)
      (omega arith, omega arith) (omega arith) (omega arith)

-- The status for a get in version 1, with two bytes more than a message without data has.
v1_status :
    status_bytes hdr_get 1 simple_mode (pos 0)
    ≡ 115 ∷ 104 ∷ 99 ∷ 1 ∷ hdr_response ∷ 0 ∷ 0 ∷ 0 ∷ 0 ∷ 0 ∷ []
unfolding status_bytes status_array status_delta
v1_status = refl

-- An error behind a piece: the preamble promises four bytes and one comes.
cut_short :
    (handle_all
      (record { content = 1 ∷ []; total = 4; stamped = false }
        ∷ record { content = []; total = 0; stamped = false }
        ∷ [])
      get_request).output
    ≡ 115 ∷ 104 ∷ 99 ∷ 2 ∷ hdr_response ∷ 0 ∷ 0 ∷ 0 ∷ 4 ∷ 1 ∷ 128 ∷ 0 ∷ 0 ∷ 0 ∷ 1 ∷ res_err ∷ 0 ∷ []
unfolding handle_all get_async_data_handler begin_value preamble record_size epilogue epilogue_bytes
    v2_data finish_value be32
cut_short = refl

-- A get of a part of two bytes, of which the value has one: the preamble has the two.
part_too_long :
    (handle_all (parts 1 [] (9 ∷ [])) (record get_request {
      hdr = hdr_get_offset;
      records = key ∷ be32 0 ∷ be32 2 ∷ [] ∷ [] ∷ [];
    })).output
    ≡ 115 ∷ 104 ∷ 99 ∷ 2 ∷ hdr_response ∷ 0 ∷ 0 ∷ 0 ∷ 2 ∷ 9 ∷ 128 ∷ 0 ∷ 0 ∷ 0 ∷ 4 ∷ 0 ∷ 0 ∷ 0 ∷ 0
      ∷ 128 ∷ 0 ∷ 0 ∷ 0 ∷ 1 ∷ res_ok ∷ 0 ∷ []
unfolding handle_all get_async_data_handler begin_value preamble record_size epilogue epilogue_bytes
    v2_data finish_value flush offset_record parts be32
part_too_long = refl

-- Two requests; the second is answered first.
abbrev two_requests : List ConnectionEvent
two_requests =
    arrives
    ∷ arrives
    ∷ writes 1 (22 ∷ [])
    ∷ finishes 1
    ∷ looks
    ∷ writes 0 (11 ∷ [])
    ∷ finishes 0
    ∷ takes
    ∷ looks
    ∷ takes
    ∷ looks
    ∷ takes
    ∷ []

in_turn : (run two_requests new_connection).sent ≡ 11 ∷ 22 ∷ []
unfolding run step happen at_place write_to look take_output
in_turn = refl
