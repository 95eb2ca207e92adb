-- ===== src/Ds/Metadata.antt =====
-- internal/eds/pkg/ds/metadata.go: timestamps and etag of an object or relation that is written.
use eamerald.Base.{some, [], if◌then◌else◌}
use eamerald.Base.Bytes.{Bytes, eqb}
use eamerald.Base.Exec.{Result, ok, err, is_not_found}
use eamerald.Data.{Timestamp, Object, Relation}
use eamerald.Store.Tx.{Tx}

-- The etag of the stored instance, unless it is empty.
abbrev pub stored_etag : Bytes → Bytes → Bytes
stored_etag cur given = if eqb cur [] then given else cur

-- The switch on the stored instance, which is missing, unreadable or there.
unfoldable pub with_object_metadata : Timestamp → Result Object → Object → Result Object
with_object_metadata ts (err e) msg =
    if is_not_found e
    then ok (record msg { created_at = some ts; updated_at = some ts; etag = [] })
    else err e
with_object_metadata ts (ok cur) msg = ok (record msg {
  created_at = cur.created_at;
  updated_at = some ts;
  etag = stored_etag cur.etag msg.etag;
})

unfoldable pub with_relation_metadata : Timestamp → Result Relation → Relation → Result Relation
with_relation_metadata ts (err e) msg =
    if is_not_found e
    then ok (record msg { created_at = some ts; updated_at = some ts; etag = [] })
    else err e
with_relation_metadata ts (ok cur) msg = ok (record msg {
  created_at = cur.created_at;
  updated_at = some ts;
  etag = stored_etag cur.etag msg.etag;
})

module _ (tx : Tx) (ts : Timestamp) where
  unfoldable pub update_metadata_object : Object → tx.State → Result Object
  unfolding with_object_metadata
  update_metadata_object msg s = with_object_metadata ts (tx.get_object msg.type msg.id s) msg

  unfoldable pub update_metadata_relation : Relation → tx.State → Result Relation
  unfolding with_relation_metadata
  update_metadata_relation msg s = with_relation_metadata ts (tx.get_relation_exact msg.ident s) msg
