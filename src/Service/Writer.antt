-- ===== src/Service/Writer.antt =====
-- internal/eds/pkg/directory/v3/writer.go
pub mod Laws
pub mod Repeat
pub mod Matched
use eamerald.Base.{Bool, true, false, not, ◌&&◌, [], none, if◌then◌else◌}
use eamerald.Base.Bytes.{Bytes, eqb}
use eamerald.Base.Exec.{
  Result, ok, err, Exec, hash_mismatch, lift, reads, raise, pure, transact, ◌>>=◌, ◌>>◌,
}
use eamerald.Data.{
  Object, Relation, RelationIdentifier, by_object, by_subject, no_object, no_relation,
}
use eamerald.Store.Tx.{Tx}
use eamerald.Ds.Metadata.{update_metadata_object, update_metadata_relation}
use eamerald.Service.Context.{Context}
use eamerald.Service.Relations.{delete_relations_with_prefix}

-- The optimistic concurrency check of a set: an instance that is there has another etag.
abbrev pub is_stale : Bytes → Bytes → Bool
is_stale if_match etag = not (eqb if_match []) && not (eqb etag []) && not (eqb if_match etag)

-- A request to the writer service.
pub data Request : Type 0 where
  sets_object : Object → Request
  deletes_object : Bytes → Bytes → Bool → Request
  sets_relation : Relation → Request
  deletes_relation : RelationIdentifier → Request

module _ (tx : Tx) (ctx : Context) where
  -- From the concurrency check on, with the etag of the request and the metadata in place.
  unfoldable pub put_object : Bytes → Object → Exec tx.State Object
  put_object etag upd_obj =
      if is_stale ctx.if_match upd_obj.etag
      then raise hash_mismatch
      else if eqb etag upd_obj.etag
      then pure upd_obj
      else tx.set_object (record upd_obj { etag = etag })

  unfoldable pub set_object_tx : Object → Exec tx.State Object
  unfolding update_metadata_object put_object
  set_object_tx req = do
    upd_obj ← reads (update_metadata_object tx ctx.now req)
    put_object (ctx.object_hash req) upd_obj

  unfoldable pub set_object : Object → Exec tx.State Object
  unfolding set_object_tx
  set_object req = do
    lift (ctx.set_object_request req)
    lift (ctx.model_object req)
    transact (set_object_tx req)

  -- The optimistic concurrency check of DeleteObject.
  unfoldable pub check_object_etag : Bytes → Bytes → Exec tx.State (Unit {0})
  unfolding update_metadata_object
  check_object_etag object_type object_id = if eqb ctx.if_match [] then pure tt else do
    upd_obj ← reads (
        update_metadata_object tx ctx.now (record no_object { type = object_type; id = object_id }))
    if eqb ctx.if_match upd_obj.etag then pure tt else raise hash_mismatch

  unfoldable pub delete_object_tx : Bytes → Bytes → Bool → Exec tx.State (Unit {0})
  unfolding check_object_etag delete_relations_with_prefix
  delete_object_tx object_type object_id with_relations = do
    check_object_etag object_type object_id
    tx.delete_object object_type object_id
    if with_relations
        then (do
          delete_relations_with_prefix tx by_subject object_type object_id
          delete_relations_with_prefix tx by_object object_type object_id)
        else pure tt

  unfoldable pub delete_object : Bytes → Bytes → Bool → Exec tx.State (Unit {0})
  unfolding delete_object_tx
  delete_object object_type object_id with_relations = do
    lift (ctx.delete_object_request object_type object_id)
    lift (ctx.model_object_identifier object_type object_id)
    transact (delete_object_tx object_type object_id with_relations)

  unfoldable pub put_relation : Bytes → Relation → Exec tx.State Relation
  put_relation etag upd_rel =
      if is_stale ctx.if_match upd_rel.etag
      then raise hash_mismatch
      else if eqb etag upd_rel.etag
      then pure upd_rel
      else tx.set_relation (record upd_rel { etag = etag })

  unfoldable pub set_relation_tx : Relation → Exec tx.State Relation
  unfolding update_metadata_relation put_relation
  set_relation_tx req = do
    upd_rel ← reads (update_metadata_relation tx ctx.now req)
    put_relation (ctx.relation_hash req.ident) upd_rel

  unfoldable pub set_relation : Relation → Exec tx.State Relation
  unfolding set_relation_tx
  set_relation req = do
    lift (ctx.set_relation_request req)
    lift (ctx.model_relation req.ident)
    transact (set_relation_tx req)

  unfoldable pub check_relation_etag : RelationIdentifier → Exec tx.State (Unit {0})
  unfolding update_metadata_relation
  check_relation_etag ident = if eqb ctx.if_match [] then pure tt else do
    upd_rel ← reads (update_metadata_relation tx ctx.now (record no_relation { ident = ident }))
    if eqb ctx.if_match upd_rel.etag then pure tt else raise hash_mismatch

  unfoldable pub delete_relation_tx : RelationIdentifier → Exec tx.State (Unit {0})
  unfolding check_relation_etag
  delete_relation_tx ident = do check_relation_etag ident; tx.delete_relation ident

  unfoldable pub delete_relation : RelationIdentifier → Exec tx.State (Unit {0})
  unfolding delete_relation_tx
  delete_relation ident = do
    lift (ctx.delete_relation_request ident)
    lift (ctx.model_relation ident)
    transact (delete_relation_tx ident)

  -- The effect of a request, without the message that a set returns.
  unfoldable pub perform : Request → Exec tx.State (Unit {0})
  perform (sets_object o) = do _ ← set_object o; pure tt
  perform (deletes_object object_type object_id with_relations) =
      delete_object object_type object_id with_relations
  perform (sets_relation r) = do _ ← set_relation r; pure tt
  perform (deletes_relation i) = delete_relation i
