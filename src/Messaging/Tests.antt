-- ===== src/Messaging/Tests.antt =====
-- The messages of src/messaging.c on small inputs.
use libgroupcache.Base.{
  ℕ, zero, suc, ◌≡◌, ◌≤◌, refl, Bool, true, false, Option, none, some, List, [], ◌∷◌, ◌++◌, map,
  length, arith, negsuc,
}
use libgroupcache.Base.Bytes.{be32, read32, read_bytes}
use libgroupcache.AsyncReader.{Ctx, Callback, ended, reading_done, update_ctx, new_ctx}
use libgroupcache.AsyncReader.Records.{calls_for}
use libgroupcache.Messaging.{
  build_message, records_bytes, record_bytes, more_records, chunkize, chunkize_buffer, hdr_set,
  hdr_get_index, hdr_check,
}
use libgroupcache.Messaging.Socket.{ReadStep, arrives, interrupted, socket}
use libgroupcache.Messaging.Read.{Reading, received, read_message}
use libgroupcache.Messaging.Read.Steady.{Steady}
use libgroupcache.Messaging.Read.Records.{outs_of, add_all, AllFit}
use libgroupcache.Messaging.Read.RoundTrip.{read_message-build_message}
use libgroupcache.Messaging.Update.{update_ctx-build_message}
use libgroupcache.Messaging.Peers.{Conn}
use libgroupcache.Messaging.Peers.Status.{Answered}
use libgroupcache.Messaging.Peers.Index.{
  IndexItem, index_bytes, index_response, index_from_peer, index_from_peer-index_response,
}
use libgroupcache.Messaging.Array.{
  array_to_record, array_bytes, record_to_array, array, item_bytes, dump_records,
  array_to_record-record_to_array,
}

-- A key, a value, and reads that get four or six bytes or are interrupted.
abbrev key : List ℕ
key = 107 ∷ []

abbrev value : List ℕ
value = 1 ∷ 2 ∷ 3 ∷ 4 ∷ 5 ∷ []

abbrev slow_reads : List ReadStep
slow_reads = arrives 3 ∷ interrupted ∷ arrives 5 ∷ []

-- The bytes on the wire
wire_bytes :
    build_message hdr_set (key ∷ value ∷ []) 2
    ≡ 115 ∷ 104 ∷ 99 ∷ 2 ∷ 2 ∷ 0 ∷ 0 ∷ 0 ∷ 1 ∷ 107 ∷ 128 ∷ 0 ∷ 0 ∷ 0 ∷ 5 ∷ 1 ∷ 2 ∷ 3 ∷ 4 ∷ 5 ∷ 0
      ∷ []
unfolding build_message records_bytes record_bytes more_records be32
wire_bytes = refl

-- In version 1 the magic number is the one of version 2 all the same, with the chunks of version 1 behind it.
wire_bytes_v1 :
    build_message hdr_set (key ∷ []) 1 ≡ 115 ∷ 104 ∷ 99 ∷ 2 ∷ 2 ∷ 0 ∷ 1 ∷ 107 ∷ 0 ∷ 0 ∷ 0 ∷ []
unfolding build_message records_bytes record_bytes more_records chunkize
    libgroupcache.Base.Bytes.be16
wire_bytes_v1 = refl

-- An empty record has no length in version 2.
wire_bytes_empty :
    build_message hdr_set (key ∷ [] ∷ []) 2
    ≡ 115 ∷ 104 ∷ 99 ∷ 2 ∷ 2 ∷ 0 ∷ 0 ∷ 0 ∷ 1 ∷ 107 ∷ 128 ∷ 0 ∷ []
unfolding build_message records_bytes record_bytes more_records be32
wire_bytes_empty = refl

read_message-build_message_example :
    (a : Reading) × (read_message false 0
        (some [] ∷ none ∷ [])
        (socket (build_message hdr_set (key ∷ value ∷ []) 2 ++ (144 ∷ [])) slow_reads)
      ≡ record { ohdr = some hdr_set; outcome = received 2 a })
    × (outs_of a ≡ add_all (key ∷ value ∷ []) (some [] ∷ none ∷ []))
    × (a.sock.bytes ≡ 144 ∷ [])
    × Steady a.sock.reads
unfolding AllFit Steady hdr_check
read_message-build_message_example =
    read_message-build_message false 0 hdr_set key (value ∷ []) (some [] ∷ none ∷ []) (144 ∷ [])
      slow_reads refl (omega arith, omega arith, omega arith, (omega arith, omega arith, tt, tt))
      (omega arith, (omega arith, tt))

abbrev quiet : Callback
quiet calls c = true

update_ctx-build_message_example :
    (b : Ctx) × (update_ctx quiet
        (record new_ctx { buf = build_message hdr_set (key ∷ value ∷ []) 2 })
      ≡ ended b)
    × (b.state ≡ reading_done)
    × (b.hdr ≡ hdr_set)
    × (b.buf ≡ [])
    × (b.calls
        ≡ record { payload = []; index = negsuc 0; total = b.clen }
          ∷ calls_for [] 0 key (value ∷ []))
update_ctx-build_message_example =
    update_ctx-build_message quiet hdr_set key (value ∷ []) (λ cs c h. refl)
      (omega arith, omega arith) ((omega arith, omega arith), tt)

-- Two items of an index, and a connection on which they come.
abbrev two_items : List IndexItem
two_items = record { key = key; vlen = 5 } ∷ record { key = value; vlen = 70000 } ∷ []

abbrev index_conn : Conn
index_conn = record {
  written = [];
  writable = true;
  sock = socket (index_response two_items 2 ++ []) slow_reads;
}

index_from_peer-index_response_example :
    (c' : Conn) × ◌≡◌ {A = Option (List IndexItem) × Conn}
      (index_from_peer index_conn)
      (some two_items, c')
    × Answered index_conn c' hdr_get_index [] []
unfolding index_bytes be32 Steady
index_from_peer-index_response_example =
    index_from_peer-index_response two_items index_conn []
      ((omega arith, omega arith), ((omega arith, omega arith), tt)) (omega arith)
      (record { writes = refl; comes = refl; steady = (omega arith, (omega arith, tt)) })

array_to_record-record_to_array_example :
    (array_to_record (7 ∷ 7 ∷ []) (some key ∷ none ∷ some value ∷ [])
      ≡ chunkize_buffer (array_bytes (some key ∷ none ∷ some value ∷ [])))
    × (record_to_array (array_bytes (some key ∷ none ∷ some value ∷ []))
        ≡ array (map item_bytes (some key ∷ none ∷ some value ∷ [])))
unfolding dump_records be32
array_to_record-record_to_array_example =
    array_to_record-record_to_array (7 ∷ 7 ∷ []) (some key ∷ none ∷ some value ∷ []) (omega arith)
