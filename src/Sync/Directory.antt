-- ===== src/Sync/Directory.antt =====
-- internal/eds/pkg/datasync/directory.go: the export stream of the remote directory goes into the store,
-- and a diff deletes what was not in it. Here the producer runs before the subscriber; that the two
-- goroutines come to the same is what Sync/Pipeline shows. Log lines and their counters are left out.
use eamerald.Base.{Bool, true, false, Option, some, List, [], ◌∷◌, ◌++◌, if◌then◌else◌}
use eamerald.Base.Exec.{Error, Result, ok, err, Exec}
use eamerald.Data.{Timestamp, Object, Relation, by_object, no_filter}
use eamerald.Store.Page.{values}
use eamerald.Store.Tx.{Tx}
use eamerald.Service.Context.{Context}
use eamerald.Sync.Filter.{
  Cuckoo, get_object_key, get_relation_key, object_or_empty, relation_or_empty,
}
use eamerald.Sync.Handlers.{
  object_set_handler, relation_set_handler, object_delete_handler, relation_delete_handler,
}
use eamerald.Sync.Watermark.{max_ts, no_timestamp}

-- The message of a response is a pointer that may be nil, or of another type.
pub data ExportMsg : Type 0 where
  object_export : Option Object → ExportMsg
  relation_export : Option Relation → ExportMsg
  other_export : ExportMsg

-- What the subscriber has collected: the latest update, and the errors that it reported.
pub record Received : Type 0 where
  pub ts : Option Timestamp
  pub errors : List Error

abbrev pub nothing_received : Received
nothing_received = record { ts = some no_timestamp; errors = [] }

-- Messages of another type are not sent on.
abbrev pub is_sent : ExportMsg → Bool
is_sent other_export = false
is_sent _ = true

unfoldable pub sent_messages : List ExportMsg → List ExportMsg
sent_messages [] = []
sent_messages (m ∷ msgs) = if is_sent m then m ∷ sent_messages msgs else sent_messages msgs

module _ (cuckoo : Cuckoo) where
  -- In diff mode the producer puts the key into the filter. Whether the filter took it is not looked
  -- at.
  unfoldable pub note_export : Bool → ExportMsg → cuckoo.Filter → cuckoo.Filter
  unfolding get_object_key get_relation_key
  note_export false m f = f
  note_export true (object_export m) f =
      (cuckoo.insert_key (get_object_key (object_or_empty m)) f).1
  note_export true (relation_export m) f =
      (cuckoo.insert_key (get_relation_key (relation_or_empty m)) f).1
  note_export true other_export f = f

  unfoldable pub note_exports : Bool → List ExportMsg → cuckoo.Filter → cuckoo.Filter
  unfolding note_export
  note_exports diff [] f = f
  note_exports diff (m ∷ msgs) f = note_exports diff msgs (note_export diff m f)

module _ (tx : Tx) (ctx : Context) where
  -- The time of a message is read after its handler has succeeded, when UpdateMetadataObject or
  -- UpdateMetadataRelation has written the local time over the remote one.
  unfoldable pub collect : Received → Result (Unit {0}) → Received
  unfolding max_ts
  collect got (ok u) = record got { ts = max_ts got.ts (some ctx.now) }
  collect got (err e) = record got { errors = got.errors ++ e ∷ [] }

  -- One round of the loop of the subscriber.
  unfoldable pub receive : ExportMsg → Received → tx.State → Received × tx.State
  unfolding collect object_set_handler relation_set_handler
  receive (object_export m) got s =
      let (r, s') = object_set_handler tx ctx m s in (collect got r, s')
  receive (relation_export m) got s =
      let (r, s') = relation_set_handler tx ctx m s in (collect got r, s')
  receive other_export got s = (got, s)

  unfoldable pub receive_all : List ExportMsg → Received → tx.State → Received × tx.State
  unfolding receive
  receive_all [] got s = (got, s)
  receive_all (m ∷ msgs) got s = let (got', s') = receive m got s in receive_all msgs got' s'

  abbrev pub failed : Result (Unit {0}) → List Error
  failed (ok u) = []
  failed (err e) = e ∷ []

  -- The deletes of a diff, with the errors of those that failed.
  unfoldable pub delete_objects : List Object → tx.State → List Error × tx.State
  unfolding object_delete_handler
  delete_objects [] s = ([], s)
  delete_objects (obj ∷ stale) s =
      let (r, s') = object_delete_handler tx ctx (some obj) s in
      let (errors, s'') = delete_objects stale s' in (failed r ++ errors, s'')

  unfoldable pub delete_relations : List Relation → tx.State → List Error × tx.State
  unfolding relation_delete_handler
  delete_relations [] s = ([], s)
  delete_relations (rel ∷ stale) s =
      let (r, s') = relation_delete_handler tx ctx (some rel) s in
      let (errors, s'') = delete_relations stale s' in (failed r ++ errors, s'')

  module _ (cuckoo : Cuckoo) where
    unfoldable pub stale_objects : cuckoo.Filter → List Object → List Object
    unfolding get_object_key
    stale_objects f [] = []
    stale_objects f (obj ∷ objs) =
        if cuckoo.lookup_key (get_object_key obj) f
        then stale_objects f objs
        else obj ∷ stale_objects f objs

    unfoldable pub stale_relations : cuckoo.Filter → List Relation → List Relation
    unfolding get_relation_key
    stale_relations f [] = []
    stale_relations f (rel ∷ rels) =
        if cuckoo.lookup_key (get_relation_key rel) f
        then stale_relations f rels
        else rel ∷ stale_relations f rels

    -- The scan is over before the first delete.
    unfoldable pub diff_objects : cuckoo.Filter → Exec tx.State (List Error)
    unfolding stale_objects delete_objects
    diff_objects f s = elim (tx.scan_objects [] [] s) [
      | err e ↦ (err e, s)
      | ok rows ↦
          let (errors, s') = delete_objects (stale_objects f (values rows)) s in (ok errors, s')
    ]

    unfoldable pub diff_relations : cuckoo.Filter → Exec tx.State (List Error)
    unfolding stale_relations delete_relations
    diff_relations f s = elim (tx.scan_relations by_object no_filter [] s) [
      | err e ↦ (err e, s)
      | ok rows ↦
          let (errors, s') = delete_relations (stale_relations f (values rows)) s in (ok errors, s')
    ]
