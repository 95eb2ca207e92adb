-- ===== src/Bdb/Implements.antt =====
-- The transaction of internal/eds/pkg/bdb as the services of internal/eds/pkg/directory/v3 use it:
-- the interface of internal/eds/pkg/store/store.go, filled by object_store.go and relation_store.go.
use eamerald.Base.Exec.{key_not_found, bind-view}
use eamerald.Bolt.{Backend, BackendLaws}
use eamerald.Store.Tx.{Tx, TxLaws, ObjectFrame}
use eamerald.Ds.Object.{str_key}
use eamerald.Base.{ap, arith, refl}
use eamerald.Base.Bytes.{eqb_iff}
use eamerald.Bdb.Bucket.{get_message}
use eamerald.Bdb.Bucket.{objects_path, relations_obj_path, relations_sub_path, delete_key}
use eamerald.Bdb.Bucket.Frame.{get_message-delete_key_ne}
use eamerald.Bdb.Bucket.Steps.{get_message-set_message, get_message-delete_key, set_message-ok}
use eamerald.Bdb.Keys.{object_key, obj_key, sub_key}
use eamerald.Bdb.Objects.{get_object, set_object, delete_object, scan_objects}
use eamerald.Bdb.Relations.{
  get_relation_exact, set_relation, delete_relation, scan_relations, scan_relations_filtered,
  relations_exist_for_object,
}
use eamerald.Bdb.Relations.Lookup.{set_relation-same, delete_relation-same}

abbrev pub bdb_tx : Backend → Tx
bdb_tx b = record {
  State = b.bolt.Tx;
  get_object = get_object b;
  set_object = set_object b;
  delete_object = delete_object b;
  scan_objects = scan_objects b;
  get_relation_exact = get_relation_exact b;
  set_relation = set_relation b;
  delete_relation = delete_relation b;
  scan_relations = scan_relations b;
  scan_relations_filtered = scan_relations_filtered b;
  relations_exist_for_object = relations_exist_for_object b;
}

-- The transactions of BoltDB keep what the services rely on: a successful write of an object or a
-- relation is read back under its key, and returns what it stored if it is an object, and a read
-- after a successful delete fails.
pub bdb_tx-TxLaws : {b : Backend} (laws : BackendLaws b) → TxLaws (bdb_tx b)
unfolding get_object set_object delete_object
bdb_tx-TxLaws {b} laws = record {
  get_object-set_object = λ o o' s s' h.
      get_message-set_message laws.bolt b.objects objects_path (object_key o.type o.id) o o' s s' h;
  set_object-result = λ o o' s s' h.
      (set_message-ok b.bolt b.objects objects_path (object_key o.type o.id) o o' s s' h).3;
  get_object-delete_object = λ t i s s' h. (
    key_not_found,
    get_message-delete_key laws.bolt b.objects objects_path (object_key t i) s s' h,
  );
  get_relation_exact-set_relation = λ r r' s s' h. set_relation-same laws r r' s s' h;
  get_relation_exact-delete_relation =
      λ i s s' h. (key_not_found, delete_relation-same laws i s s' h);
}

-- The objects of BoltDB stand under their keys, in a bucket of their own, and a delete changes no
-- other key.
pub bdb_tx-ObjectFrame : {b : Backend} (laws : BackendLaws b) → ObjectFrame (bdb_tx b)
unfolding get_object delete_object str_key object_key delete_relation eamerald.Bolt.path_eq
    eamerald.Base.Bytes.eqb
bdb_tx-ObjectFrame {b} laws = record {
  get_object-delete_other = λ t i t' i' s other.
      get_message-delete_key_ne laws.bolt b.objects s objects_path (object_key t i) objects_path
        (object_key t' i') (ground (arith, eqb_iff (object_key t i) (object_key t' i')));
  get_object-delete_relation = λ t i ident s.
      bind-view (get_object b t i) (delete_key b.bolt relations_obj_path (obj_key ident))
        (λ _. delete_key b.bolt relations_sub_path (sub_key ident)) s
        (get_message-delete_key_ne laws.bolt b.objects s relations_obj_path (obj_key ident)
          objects_path (object_key t i) refl)
        (λ _ u.
          get_message-delete_key_ne laws.bolt b.objects u relations_sub_path (sub_key ident)
            objects_path (object_key t i) refl);
  get_object-key = λ t i t' i' s same. ap (get_message b.bolt b.objects s objects_path) same;
}
