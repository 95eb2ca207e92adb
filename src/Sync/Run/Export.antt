-- ===== src/Sync/Run/Export.antt =====
-- A sync whose remote directory is another eamerald: the stream is that of its Export.
use eamerald.Base.{
  ℕ, ◌≡◌, ◌∙◌, refl, sym, ap, inl, inr, true, false, Option, none, some, List, [], ◌∷◌, ◌++◌,
  if◌then◌else◌,
}
use eamerald.Base.Bytes.{Bytes}
use eamerald.Base.Dict.{lookup}
use eamerald.Base.Exec.{ok, Result-cases, just_ok}
use eamerald.Data.{Object, Value, get_fields}
use eamerald.Store.Page.{values}
use eamerald.Store.Tx.{Tx, ObjectFrame}
use eamerald.Ds.Object.{patch_object_read, with_display_name, prop_display_name}
use eamerald.Service.Context.{Context}
use eamerald.Service.Exporter.{
  ExportResponse, exported_object, exported_relation, exported_stats, Options, object_responses,
  export, export_objects, export_relations,
}
use eamerald.Sync.Filter.{Cuckoo, CuckooLaws}
use eamerald.Sync.Watermark.{get_watermark, get_filter_size}
use eamerald.Sync.Taken.{TakesAll}
use eamerald.Sync.Directory.{
  ExportMsg, object_export, relation_export, other_export, nothing_received, receive_all,
  sent_messages,
}
use eamerald.Sync.Run.{Mode, has, diff_mode, Local, sync_stream}
use eamerald.Sync.Run.Mirror.{sync_stream-exported}

-- The response as the client of the stream reads it.
abbrev pub export_msg : ExportResponse → ExportMsg
export_msg (exported_object o) = object_export (some o)
export_msg (exported_relation r) = relation_export (some r)
export_msg (exported_stats stats) = other_export

abbrev pub export_msgs : List ExportResponse → List ExportMsg
export_msgs [] = []
export_msgs (r ∷ responses) = export_msg r ∷ export_msgs responses

export_msgs-split :
    (before after : List Object) (o : Object) (rest : List ExportResponse)
    → export_msgs (object_responses (before ++ o ∷ after) ++ rest)
      ≡ export_msgs (object_responses before)
        ++ object_export (some (patch_object_read o)) ∷ export_msgs (object_responses after ++ rest)
export_msgs-split [] after o rest = refl
export_msgs-split (b ∷ before) after o rest =
    ap (λ ms. object_export (some (patch_object_read b)) ∷ ms)
      (export_msgs-split before after o rest)

with_display_name-type : (o : Object) (v : Option Value) → (with_display_name o v).type ≡ o.type
unfolding with_display_name
with_display_name-type o none = refl
with_display_name-type o (some v) = refl

with_display_name-id : (o : Object) (v : Option Value) → (with_display_name o v).id ≡ o.id
unfolding with_display_name
with_display_name-id o none = refl
with_display_name-id o (some v) = refl

module _ (tx : Tx) where
  export-split :
      (opts : Options) (remote : tx.State) (rows : List (Object × Bytes))
      (before after : List Object) (o : Object) (responses : List ExportResponse)
      → opts.stats ≡ false
      → opts.data_objects ≡ true
      → tx.scan_objects [] [] remote ≡ ok rows
      → values rows ≡ before ++ o ∷ after
      → export tx opts remote ≡ ok responses
      → (rest : List ExportMsg) × (export_msgs responses
          ≡ export_msgs (object_responses before)
            ++ object_export (some (patch_object_read o)) ∷ rest)
  unfolding export export_objects export_relations
  export-split opts remote rows before after o responses counts objects scanned listed h =
      elim (Result-cases (if opts.data_relations then export_relations tx remote else ok [])) [
        | inr (x, e) ↦ absurd (cc (rw (counts, objects, scanned, e) at h))
        | inl (rest, e) ↦
            let same : ok (object_responses (values rows) ++ rest) ≡ ok responses =
              rw (counts, objects, scanned, e) at h in
            (
              export_msgs (object_responses after ++ rest),
              ap export_msgs (sym (just_ok _ responses same))
                  ∙ ap (λ items. export_msgs (object_responses items ++ rest)) listed
                  ∙ export_msgs-split before after o rest,
            )
      ]

module _ {tx : Tx} (frame : ObjectFrame tx) (ctx : Context) {cuckoo : Cuckoo}
    (laws : CuckooLaws cuckoo) (keys : tx.State → ℕ × ℕ) where
  sync_stream-exported_at :
      (mode : Mode) (msgs before rest : List ExportMsg) (o : Object) (type id : Bytes)
      (local : Local tx.State)
      → o.type ≡ type
      → o.id ≡ id
      → msgs ≡ before ++ object_export (some o) ∷ rest
      → has mode diff_mode ≡ true
      → TakesAll cuckoo msgs (cuckoo.new_filter (get_filter_size (get_watermark local.file)))
      → tx.get_object type id (sync_stream tx ctx cuckoo keys mode (ok (msgs, ok tt)) local).1.store
        ≡ tx.get_object type id
            (receive_all tx ctx (sent_messages msgs) nothing_received local.store).1
  sync_stream-exported_at mode msgs before rest o type id local type_eq id_eq split diffs taken =
      rw (← type_eq, ← id_eq, split)
        (sync_stream-exported frame ctx laws keys mode before rest o local diffs
          (rw split at taken))

  -- A sync in diff mode whose stream is the Export of another store, with the objects and without
  -- statistics, leaves each object of that store as it was locally when the stream ended: the
  -- deletes of the diff spare it, provided that the filter takes the key of every message.
  pub sync_stream-export :
      (mode : Mode) (opts : Options) (remote : tx.State) (rows : List (Object × Bytes))
      (before after : List Object) (o : Object) (responses : List ExportResponse)
      (local : Local tx.State)
      → has mode diff_mode ≡ true
      → opts.stats ≡ false
      → opts.data_objects ≡ true
      → tx.scan_objects [] [] remote ≡ ok rows
      → values rows ≡ before ++ o ∷ after
      → export tx opts remote ≡ ok responses
      → TakesAll cuckoo
          (export_msgs responses)
          (cuckoo.new_filter (get_filter_size (get_watermark local.file)))
      → tx.get_object o.type o.id
          (sync_stream tx ctx cuckoo keys mode (ok (export_msgs responses, ok tt)) local).1.store
        ≡ tx.get_object o.type o.id
            (receive_all tx ctx
              (sent_messages (export_msgs responses))
              nothing_received
              local.store).1
  unfolding patch_object_read
  sync_stream-export mode opts remote rows before after o responses local diffs counts objects
        scanned listed h taken =
      let (rest, split) =
        export-split tx opts remote rows before after o responses counts objects scanned listed h in
      let v : Option Value = lookup (get_fields o.properties) prop_display_name in
      sync_stream-exported_at mode (export_msgs responses) (export_msgs (object_responses before))
        rest (patch_object_read o) o.type o.id local (with_display_name-type o v)
        (with_display_name-id o v) split diffs taken
