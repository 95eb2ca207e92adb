-- ===== src/Sync/Handlers.antt =====
-- internal/eds/pkg/datasync/handlers.go: what a sync does with one object or relation. The validators,
-- the model, the hashes and the clock are those of Service/Context.antt.
use eamerald.Base.{Option, none, some, if◌then◌else◌}
use eamerald.Base.Bytes.{Bytes, eqb}
use eamerald.Base.Exec.{
  Exec, lift, reads, raise, pure, with_error, ◌>>=◌, ◌>>◌, invalid_object, invalid_relation,
}
use eamerald.Data.{Object, Relation}
use eamerald.Store.Tx.{Tx}
use eamerald.Ds.Metadata.{update_metadata_object, update_metadata_relation}
use eamerald.Service.Context.{Context}

module _ (tx : Tx) (ctx : Context) where
  -- From the comparison of the etags on.
  unfoldable pub put_synced_object : Bytes → Object → Exec tx.State (Unit {0})
  put_synced_object etag upd_req = if eqb etag upd_req.etag then pure tt else (do
    _ ← with_error (tx.set_object (record upd_req { etag = etag })) invalid_object
    pure tt)

  unfoldable pub object_set_handler : Option Object → Exec tx.State (Unit {0})
  unfolding put_synced_object update_metadata_object
  object_set_handler none = raise invalid_object
  object_set_handler (some req) = do
    lift (ctx.valid_object req)
    lift (ctx.model_object req)
    upd_req ← reads (update_metadata_object tx ctx.now req)
    put_synced_object (ctx.object_hash req) upd_req

  unfoldable pub object_delete_handler : Option Object → Exec tx.State (Unit {0})
  object_delete_handler none = raise invalid_object
  object_delete_handler (some req) = do
    lift (ctx.valid_object req)
    lift (ctx.model_object req)
    with_error (tx.delete_object req.type req.id) invalid_object

  unfoldable pub put_synced_relation : Bytes → Relation → Exec tx.State (Unit {0})
  put_synced_relation etag upd_req = if eqb etag upd_req.etag then pure tt else (do
    _ ← with_error (tx.set_relation (record upd_req { etag = etag })) invalid_relation
    pure tt)

  unfoldable pub relation_set_handler : Option Relation → Exec tx.State (Unit {0})
  unfolding put_synced_relation update_metadata_relation
  relation_set_handler none = raise invalid_relation
  relation_set_handler (some req) = do
    lift (ctx.valid_relation req)
    lift (ctx.model_relation req.ident)
    upd_req ← reads (update_metadata_relation tx ctx.now req)
    put_synced_relation (ctx.relation_hash req.ident) upd_req

  unfoldable pub relation_delete_handler : Option Relation → Exec tx.State (Unit {0})
  relation_delete_handler none = raise invalid_relation
  relation_delete_handler (some req) = do
    lift (ctx.valid_relation req)
    lift (ctx.model_relation req.ident)
    with_error (tx.delete_relation req.ident) invalid_relation
