-- ===== src/Tests/Exported.antt =====
-- Runs of the theorems on the export, with one user in the remote store.
use eamerald.Base.{ℕ, ◌≡◌, refl, Bool, true, false, none, List, [], ◌∷◌}
use eamerald.Base.Bytes.{Bytes, codes, eqb}
use eamerald.Base.Exec.{ok}
use eamerald.Data.{by_object, no_filter}
use eamerald.Bdb.Implements.{bdb_tx-ObjectFrame}
use eamerald.Ds.Stats.{Stats, calculate_stats}
use eamerald.Ds.Stats.Counts.{objects_of, relations_of, relations_named, calculate_stats-counts}
use eamerald.Service.Exporter.{Options, export, ExportResponse, exported_object}
use eamerald.Sync.Directory.{nothing_received, receive_all, sent_messages}
use eamerald.Sync.Run.{diff_mode, Local, sync_stream}
use eamerald.Sync.Run.Export.{export_msgs, sync_stream-export}
use eamerald.Tests.Memory
use eamerald.Tests.Frames
use eamerald.Tests.Memory.{Store, no_entries}
use eamerald.Tests.Frames.{backend_laws}
use eamerald.Tests.Served.{tx, accepting, stored_bob, with_bob}
use eamerald.Tests.Synced.{exact, exact-CuckooLaws}

abbrev data_options : Options
data_options = record { stats = false; data_objects = true; data_relations = true }

abbrev streamed : List ExportResponse
streamed = exported_object stored_bob ∷ []

abbrev empty_store : Local Store
empty_store = record { store = no_entries; file = none }

sync_stream-export_example :
    tx.get_object
      (codes "user")
      (codes "bob")
      (sync_stream tx accepting exact
        (λ s. (1, 0))
        diff_mode
        (ok (export_msgs streamed, ok tt))
        empty_store).1.store
    ≡ tx.get_object
        (codes "user")
        (codes "bob")
        (receive_all tx accepting
          (sent_messages (export_msgs streamed))
          nothing_received
          no_entries).1
unfolding eamerald.Bdb.Objects.scan_objects eamerald.Bdb.Scan.next
    eamerald.Service.Writer.set_object_tx eamerald.Bdb.Objects.get_object eamerald.Bolt.find eqb
    eamerald.Bdb.Objects.set_object Frames.marshal_object Memory.put eamerald.Bolt.path_eq
    Memory.insert eamerald.Base.Bytes.has_prefix Frames.unmarshal_object export
    eamerald.Bdb.Relations.scan_relations eamerald.Sync.Run.has
sync_stream-export_example =
    sync_stream-export (bdb_tx-ObjectFrame backend_laws) accepting exact-CuckooLaws (λ s. (1, 0))
      diff_mode data_options with_bob ((stored_bob, codes "user:bob") ∷ []) [] [] stored_bob
      streamed empty_store refl refl refl scanned refl sent (refl, tt)
  where
    scanned : tx.scan_objects [] [] with_bob ≡ ok ((stored_bob, codes "user:bob") ∷ [])
    scanned = refl

    sent : export tx data_options with_bob ≡ ok streamed
    sent = refl

calculate_stats-counts_example :
    (stats : Stats) × (calculate_stats tx with_bob ≡ ok stats)
    × (objects_of (codes "user") stats ≡ 1)
    × (relations_of (codes "user") stats ≡ 0)
    × (relations_named (codes "user") (codes "owner") stats ≡ 0)
unfolding eamerald.Bdb.Objects.scan_objects eamerald.Bdb.Scan.next
    eamerald.Service.Writer.set_object_tx eamerald.Bdb.Objects.get_object eamerald.Bolt.find eqb
    eamerald.Bdb.Objects.set_object Frames.marshal_object Memory.put eamerald.Bolt.path_eq
    Memory.insert eamerald.Base.Bytes.has_prefix Frames.unmarshal_object
    eamerald.Bdb.Relations.scan_relations
calculate_stats-counts_example =
    calculate_stats-counts tx (codes "user") (codes "owner") with_bob
      ((stored_bob, codes "user:bob") ∷ []) [] scanned related
  where
    scanned : tx.scan_objects [] [] with_bob ≡ ok ((stored_bob, codes "user:bob") ∷ [])
    scanned = refl

    related : tx.scan_relations by_object no_filter [] with_bob ≡ ok []
    related = refl
