-- ===== src/Sync/Run/Mirror.antt =====
-- What a sync in diff mode keeps.
use eamerald.Base.{
  ◌≡◌, refl, ◌∙◌, true, Option, some, List, [], ◌∷◌, ◌++◌, inl, inr, ℕ, Option-cases,
}
use eamerald.Base.Bytes.{Bytes}
use eamerald.Base.Exec.{Error, Result, ok, err, Result-cases, bind-view, transact-view}
use eamerald.Data.{Object, Relation, Timestamp, by_object, no_filter}
use eamerald.Store.Page.{values}
use eamerald.Store.Tx.{Tx, ObjectFrame}
use eamerald.Ds.Object.{str_key}
use eamerald.Service.Context.{Context}
use eamerald.Sync.Filter.{Cuckoo, CuckooLaws, get_object_key}
use eamerald.Sync.Handlers.{relation_delete_handler}
use eamerald.Sync.Directory.{
  ExportMsg, object_export, nothing_received, delete_relations, stale_relations, diff_objects,
  diff_relations, note_exports, receive_all, sent_messages,
}
use eamerald.Sync.Taken.{TakesAll, note_exports-object}
use eamerald.Sync.Diff.{diff_objects-seen}
use eamerald.Sync.Watermark.{Watermark, get_watermark, get_filter_size, set_watermark}
use eamerald.Sync.Run.{
  Mode, has, diff_mode, Local, start_filter, filled, diff_both, diff, diff_if, mark, after_diff,
  after_stream, sync_stream,
}

module _ {tx : Tx} (frame : ObjectFrame tx) (ctx : Context) (cuckoo : Cuckoo) (t i : Bytes) where
  relation_delete_handler-object :
      (r : Relation) (s : tx.State)
      → tx.get_object t i (relation_delete_handler tx ctx (some r) s).1 ≡ tx.get_object t i s
  unfolding relation_delete_handler
  relation_delete_handler-object r s = elim (Result-cases (ctx.valid_relation r)) [
    | inl (u, v) ↦ elim (Result-cases (ctx.model_relation r.ident)) [
      | inl (w, m) ↦ rw (v, m) (frame.get_object-delete_relation t i r.ident s)
      | inr (e, m) ↦ rw (v, m)
    ]
    | inr (e, v) ↦ rw v
  ]

  delete_relations-object :
      (rels : List Relation) (s : tx.State)
      → tx.get_object t i (delete_relations tx ctx rels s).1 ≡ tx.get_object t i s
  unfolding delete_relations
  delete_relations-object [] s = refl
  delete_relations-object (r ∷ rels) s =
      delete_relations-object rels (relation_delete_handler tx ctx (some r) s).1
      ∙ relation_delete_handler-object r s

  diff_relations-object :
      (f : cuckoo.Filter) (s : tx.State)
      → tx.get_object t i (diff_relations tx ctx cuckoo f s).1 ≡ tx.get_object t i s
  unfolding diff_relations
  diff_relations-object f s = elim (Result-cases (tx.scan_relations by_object no_filter [] s)) [
    | inl (rows, e) ↦
        rw (diff_relations, e)
          (delete_relations-object (stale_relations tx ctx cuckoo f (values rows)) s)
    | inr (x, e) ↦ rw (diff_relations, e)
  ]

  module _ (f : cuckoo.Filter) (seen : cuckoo.lookup_key (str_key t i) f ≡ true) where
    diff_both-seen :
        (s : tx.State) → tx.get_object t i (diff_both tx ctx cuckoo f s).1 ≡ tx.get_object t i s
    unfolding diff_both
    diff_both-seen s =
        bind-view (tx.get_object t i) (diff_objects tx ctx cuckoo f) _ s
          (diff_objects-seen frame ctx cuckoo f t i seen s)
          (λ objects u.
            bind-view (tx.get_object t i) (diff_relations tx ctx cuckoo f) _ u
              (diff_relations-object f u) (λ relations w. refl))

    diff-seen :
        (s : tx.State) → tx.get_object t i (diff tx ctx cuckoo (some f) s).1 ≡ tx.get_object t i s
    unfolding diff
    diff-seen s = transact-view (tx.get_object t i) (diff_both tx ctx cuckoo f) s (diff_both-seen s)

  -- Neither the watermark nor an error of the diff changes the store again.
  module _ (keys : tx.State → ℕ × ℕ) where
    mark-store :
        (ts : Option Timestamp) (local : Local tx.State)
        → (mark tx ctx cuckoo keys ts local).1.store ≡ local.store
    unfolding mark
    mark-store ts local =
        elim (Option-cases
          (set_watermark local.file (keys local.store).0 (keys local.store).1 ts)) [
            | inl none_left ↦ rw (mark, none_left)
            | inr (wm, e) ↦ rw (mark, e)
          ]

    after_diff-store :
        (ts : Option Timestamp) (file : Option Watermark) (p : Result (List Error) × tx.State)
        → (after_diff tx ctx cuckoo keys ts file p).1.store ≡ p.1
    unfolding after_diff
    after_diff-store ts file (err e, s) = refl
    after_diff-store ts file (ok errors, s) = mark-store ts (record { store = s; file = file })

module _ {tx : Tx} (frame : ObjectFrame tx) (ctx : Context) {cuckoo : Cuckoo}
    (laws : CuckooLaws cuckoo) (keys : tx.State → ℕ × ℕ) where
  -- A sync in diff mode, whose export stream ends without an error and whose filter took the key of
  -- every message, leaves each exported object as it was when the stream ended: the deletes of the
  -- diff spare it.
  pub sync_stream-exported :
      (mode : Mode) (before after : List ExportMsg) (o : Object) (local : Local tx.State)
      → has mode diff_mode ≡ true
      → TakesAll cuckoo
          (before ++ object_export (some o) ∷ after)
          (cuckoo.new_filter (get_filter_size (get_watermark local.file)))
      → tx.get_object o.type o.id
          (sync_stream tx ctx cuckoo keys mode
            (ok (before ++ object_export (some o) ∷ after, ok tt))
            local).1.store
        ≡ tx.get_object o.type o.id
            (receive_all tx ctx
              (sent_messages (before ++ object_export (some o) ∷ after))
              nothing_received
              local.store).1
  unfolding sync_stream after_stream diff_if start_filter filled str_key get_object_key
  sync_stream-exported mode before after o local deletes taken =
      let msgs : List ExportMsg = before ++ object_export (some o) ∷ after in
      let got = receive_all tx ctx (sent_messages msgs) nothing_received local.store in
      let size : ℕ = get_filter_size (get_watermark local.file) in
      let f = note_exports cuckoo true msgs (cuckoo.new_filter size) in
      rw
        (
          deletes,
          after_diff-store frame ctx cuckoo o.type o.id keys got.0.ts local.file
              (diff tx ctx cuckoo (some f) got.1),
        )
        (diff-seen frame ctx cuckoo o.type o.id f
          (note_exports-object laws before after o (cuckoo.new_filter size) taken) got.1)
