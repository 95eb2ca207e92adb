-- ===== src/Sync/Diff.antt =====
-- What the diff of internal/eds/pkg/datasync/directory.go leaves in the store.
use eamerald.Base.{
  ◌≡◌, ◌≢◌, refl, sym, ap, ◌∙◌, true, false, some, List, [], ◌∷◌, ◌++◌, Bool-cases, inl, inr, arith,
}
use eamerald.Base.Bytes.{Bytes, eqb, eqb_iff}
use eamerald.Base.Exec.{Error, Result, ok, err, Result-cases}
use eamerald.Data.{Object}
use eamerald.Store.Page.{values}
use eamerald.Store.Tx.{Tx, TxLaws, ObjectFrame}
use eamerald.Ds.Object.{str_key}
use eamerald.Service.Context.{Context}
use eamerald.Sync.Filter.{Cuckoo, get_object_key}
use eamerald.Sync.Handlers.{object_delete_handler}
use eamerald.Sync.Directory.{failed, delete_objects, stale_objects, diff_objects}

module _ {tx : Tx} (frame : ObjectFrame tx) (ctx : Context) where
  object_delete_handler-other :
      (stale : Object) (t i : Bytes) (s : tx.State)
      → str_key stale.type stale.id ≢ str_key t i
      → tx.get_object t i (object_delete_handler tx ctx (some stale) s).1 ≡ tx.get_object t i s
  unfolding object_delete_handler
  object_delete_handler-other stale t i s other = elim (Result-cases (ctx.valid_object stale)) [
    | inl (u, v) ↦ elim (Result-cases (ctx.model_object stale)) [
      | inl (w, m) ↦ rw (v, m) (frame.get_object-delete_other stale.type stale.id t i s other)
      | inr (e, m) ↦ rw (v, m)
    ]
    | inr (e, v) ↦ rw v
  ]

  module _ (cuckoo : Cuckoo) (f : cuckoo.Filter) (t i : Bytes)
      (seen : cuckoo.lookup_key (str_key t i) f ≡ true) where
    clash :
        (obj : Object)
        → cuckoo.lookup_key (get_object_key obj) f ≡ false
        → str_key obj.type obj.id ≡ str_key t i
        → ⊥
    unfolding get_object_key str_key
    clash obj missed e = cc

    delete_objects-seen :
        (objs : List Object) (s : tx.State)
        → tx.get_object t i (delete_objects tx ctx (stale_objects tx ctx cuckoo f objs) s).1
          ≡ tx.get_object t i s
    unfolding delete_objects stale_objects get_object_key str_key
    delete_objects-seen [] s = refl
    delete_objects-seen (obj ∷ objs) s =
        elim (Bool-cases (cuckoo.lookup_key (get_object_key obj) f)) [
          | inl found ↦ rw found (delete_objects-seen objs s)
          | inr missed ↦ rw missed (
              delete_objects-seen objs (object_delete_handler tx ctx (some obj) s).1
              ∙ object_delete_handler-other obj t i s (λ e. clash obj missed e))
        ]

    -- The diff leaves an object alone whose key the filter finds.
    pub diff_objects-seen :
        (s : tx.State) → tx.get_object t i (diff_objects tx ctx cuckoo f s).1 ≡ tx.get_object t i s
    unfolding diff_objects
    diff_objects-seen s = elim (Result-cases (tx.scan_objects [] [] s)) [
      | inl (rows, e) ↦ rw (diff_objects, e) (delete_objects-seen (values rows) s)
      | inr (x, e) ↦ rw (diff_objects, e)
    ]

module _ {tx : Tx} (laws : TxLaws tx) (frame : ObjectFrame tx) (ctx : Context) where
  abbrev Gone : Object → tx.State → Type 0
  Gone obj s = (e : Error) × (tx.get_object obj.type obj.id s ≡ err e)

  failed-nil :
      (r : Result (Unit {0})) (errors : List Error)
      → failed tx ctx r ++ errors ≡ []
      → (r ≡ ok tt) × (errors ≡ [])
  failed-nil (ok u) errors h = (refl, h)
  failed-nil (err e) errors h = absurd (cc h)

  -- A delete that succeeds deletes, and what is gone stays away.
  object_delete_handler-ok :
      (stale : Object) (s : tx.State)
      → (object_delete_handler tx ctx (some stale) s).0 ≡ ok tt
      → tx.delete_object stale.type stale.id s
        ≡ (ok tt, (object_delete_handler tx ctx (some stale) s).1)
  unfolding object_delete_handler
  object_delete_handler-ok stale s h = ground arith

  object_delete_handler-Gone :
      (stale : Object) (s : tx.State)
      → (object_delete_handler tx ctx (some stale) s).0 ≡ ok tt
      → Gone stale (object_delete_handler tx ctx (some stale) s).1
  object_delete_handler-Gone stale s h =
      laws.get_object-delete_object stale.type stale.id s _ (object_delete_handler-ok stale s h)

  object_delete_handler-kept :
      (obj stale : Object) (s : tx.State)
      → (object_delete_handler tx ctx (some stale) s).0 ≡ ok tt
      → Gone obj s
      → Gone obj (object_delete_handler tx ctx (some stale) s).1
  object_delete_handler-kept obj stale s h (e, gone) =
      elim (Bool-cases (eqb (str_key stale.type stale.id) (str_key obj.type obj.id))) [
        | inl same ↦
            let (x, there) = object_delete_handler-Gone stale s h in
            (
              x,
              sym (
                    frame.get_object-key stale.type stale.id obj.type obj.id _
                      ((eqb_iff (str_key stale.type stale.id) (str_key obj.type obj.id)).0 same))
                  ∙ there,
            )
        | inr other ↦ (
          e,
          object_delete_handler-other frame ctx stale obj.type obj.id s (λ k.
                cc (other, (eqb_iff (str_key stale.type stale.id) (str_key obj.type obj.id)).1 k))
              ∙ gone,
        )
      ]

  delete_objects-Gone :
      (obj : Object) (stale : List Object) (s : tx.State)
      → (delete_objects tx ctx stale s).0 ≡ []
      → Gone obj s
      → Gone obj (delete_objects tx ctx stale s).1
  unfolding delete_objects
  delete_objects-Gone obj [] s h gone = gone
  delete_objects-Gone obj (o ∷ stale) s h gone =
      let (deleted, rest) = failed-nil _ _ h in
      delete_objects-Gone obj stale (object_delete_handler tx ctx (some o) s).1 rest
        (object_delete_handler-kept obj o s deleted gone)

  delete_objects-all :
      (before after : List Object) (obj : Object) (s : tx.State)
      → (delete_objects tx ctx (before ++ obj ∷ after) s).0 ≡ []
      → Gone obj (delete_objects tx ctx (before ++ obj ∷ after) s).1
  unfolding delete_objects
  delete_objects-all [] after obj s h =
      let (deleted, rest) = failed-nil _ _ h in
      delete_objects-Gone obj after (object_delete_handler tx ctx (some obj) s).1 rest
        (object_delete_handler-Gone obj s deleted)
  delete_objects-all (o ∷ before) after obj s h =
      let (deleted, rest) = failed-nil _ _ h in
      delete_objects-all before after obj (object_delete_handler tx ctx (some o) s).1 rest

  module _ (cuckoo : Cuckoo) (f : cuckoo.Filter) where
    ran :
        (p : List Error × tx.State) (s' : tx.State)
        → ◌≡◌ {A = Result (List Error) × tx.State} (ok p.0, p.1) (ok [], s')
        → (p.0 ≡ []) × (p.1 ≡ s')
    ran p s' h = (cc, cc)

    -- An object that the filter does not find is among the stale ones.
    stale_objects-split :
        (before after : List Object) (obj : Object)
        → cuckoo.lookup_key (get_object_key obj) f ≡ false
        → stale_objects tx ctx cuckoo f (before ++ obj ∷ after)
          ≡ stale_objects tx ctx cuckoo f before ++ obj ∷ stale_objects tx ctx cuckoo f after
    unfolding stale_objects
    stale_objects-split [] after obj h = rw h
    stale_objects-split (o ∷ before) after obj h =
        elim (Bool-cases (cuckoo.lookup_key (get_object_key o) f)) [
          | inl found ↦ rw found (stale_objects-split before after obj h)
          | inr missed ↦ rw missed (ap (λ objs. o ∷ objs) (stale_objects-split before after obj h))
        ]

    -- When the diff of the objects reports no error, each object of its scan that the filter does
    -- not find is gone.
    pub diff_objects-unseen :
        (s s' : tx.State) (rows : List (Object × Bytes)) (before after : List Object) (obj : Object)
        → tx.scan_objects [] [] s ≡ ok rows
        → values rows ≡ before ++ obj ∷ after
        → cuckoo.lookup_key (get_object_key obj) f ≡ false
        → diff_objects tx ctx cuckoo f s ≡ (ok [], s')
        → (e : Error) × (tx.get_object obj.type obj.id s' ≡ err e)
    unfolding diff_objects
    diff_objects-unseen s s' rows before after obj scanned listed unseen h =
        let stale =
          stale_objects tx ctx cuckoo f before ++ obj ∷ stale_objects tx ctx cuckoo f after in
        let (none_failed, left) =
          ran (delete_objects tx ctx stale s) s' (
            rw (diff_objects, scanned, listed, stale_objects-split before after obj unseen) at h) in
        let (e, gone) =
          delete_objects-all (stale_objects tx ctx cuckoo f before)
            (stale_objects tx ctx cuckoo f after) obj s none_failed in
        (e, rw left at gone)
