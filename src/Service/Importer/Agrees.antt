-- ===== src/Service/Importer/Agrees.antt =====
-- The import of internal/eds/pkg/directory/v3/importer.go and the writer of writer.go beside it do
-- the same to the store.
use eamerald.Base.{◌≡◌, true, [], some, arith, inl, inr}
use eamerald.Base.Bytes.{Bytes, eqb}
use eamerald.Base.Exec.{Result, ok, is_ok, Result-cases}
use eamerald.Data.{Object, Relation}
use eamerald.Store.Tx.{Tx}
use eamerald.Ds.Metadata.{update_metadata_object, update_metadata_relation}
use eamerald.Service.Context.{Context}
use eamerald.Service.Writer.{
  set_object_tx, put_object, delete_object_tx, check_object_etag, set_relation_tx, put_relation,
}
use eamerald.Service.Importer.{
  object_set_handler, object_delete_with_relations_handler, put_imported_object,
  put_imported_relation, relation_set_handler,
}

-- Two outcomes leave the same state, and both are successes or neither is.
abbrev pub Agree : {S A B : Type 0} → Result A × S → Result B × S → Type 0
Agree (r, s) (q, t) = (s ≡ t) × (is_ok r ≡ is_ok q)

module _ (tx : Tx) (ctx : Context) where
  put_imported_object-put_object :
      (etag : Bytes) (upd : Object) (s : tx.State)
      → ctx.if_match ≡ []
      → Agree (put_imported_object tx ctx etag upd s) (put_object tx ctx etag upd s)
  unfolding put_imported_object put_object eqb
  put_imported_object-put_object etag upd s free = (ground arith, ground arith)

  -- The import of an object that the validators and the model accept does to the store what the
  -- transaction of a set of the object does for a request without an If-Match header, and succeeds
  -- when it does.
  pub object_set_handler-set_object :
      (o : Object) (s : tx.State)
      → ctx.if_match ≡ []
      → ctx.valid_object o ≡ ok tt
      → ctx.model_object o ≡ ok tt
      → Agree (object_set_handler tx ctx (some o) s) (set_object_tx tx ctx o s)
  unfolding object_set_handler set_object_tx
  object_set_handler-set_object o s free valid modelled =
      elim (Result-cases (update_metadata_object tx ctx.now o s)) [
        | inl (upd, e) ↦
            rw (valid, modelled, e) (put_imported_object-put_object (ctx.object_hash o) upd s free)
        | inr (f, e) ↦ (ground arith, ground arith)
      ]

  -- The import of a delete with relations, of an object that the validators and the model accept,
  -- does to the store what the transaction of a delete with relations does for a request without an
  -- If-Match header, and succeeds when it does.
  object_delete_with_relations_handler-delete_object :
      (o : Object) (s : tx.State)
      → ctx.if_match ≡ []
      → ctx.valid_object o ≡ ok tt
      → ctx.model_object o ≡ ok tt
      → Agree
          (object_delete_with_relations_handler tx ctx (some o) s)
          (delete_object_tx tx ctx o.type o.id true s)
  unfolding object_delete_with_relations_handler delete_object_tx check_object_etag eqb
  object_delete_with_relations_handler-delete_object o s free valid modelled =
      (ground arith, ground arith)

  put_imported_relation-put_relation :
      (etag : Bytes) (upd : Relation) (s : tx.State)
      → ctx.if_match ≡ []
      → Agree (put_imported_relation tx ctx etag upd s) (put_relation tx ctx etag upd s)
  unfolding put_imported_relation put_relation eqb
  put_imported_relation-put_relation etag upd s free = (ground arith, ground arith)

  -- The import of a relation that the validators and the model accept does to the store what the
  -- transaction of a set of the relation does for a request without an If-Match header, and
  -- succeeds when it does.
  relation_set_handler-set_relation :
      (r : Relation) (s : tx.State)
      → ctx.if_match ≡ []
      → ctx.valid_relation r ≡ ok tt
      → ctx.model_relation r.ident ≡ ok tt
      → Agree (relation_set_handler tx ctx (some r) s) (set_relation_tx tx ctx r s)
  unfolding relation_set_handler set_relation_tx
  relation_set_handler-set_relation r s free valid modelled =
      elim (Result-cases (update_metadata_relation tx ctx.now r s)) [
        | inl (upd, e) ↦
            rw (valid, modelled, e)
              (put_imported_relation-put_relation (ctx.relation_hash r.ident) upd s free)
        | inr (f, e) ↦ (ground arith, ground arith)
      ]
