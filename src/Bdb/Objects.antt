-- ===== src/Bdb/Objects.antt =====
-- internal/eds/pkg/bdb/object_store.go
use eamerald.Base.{List, [], ◌∷◌}
use eamerald.Base.Bytes.{Bytes}
use eamerald.Base.Exec.{Result, Exec}
use eamerald.Data.{Object, no_object}
use eamerald.Bolt.{Backend}
use eamerald.Bdb.Bucket.{objects_path, get_message, set_message, delete_key}
use eamerald.Bdb.Keys.{object_key}
use eamerald.Bdb.Scan.{Row, scan_rows}

-- No key filter for all types, or else the prefix `type:`.
abbrev pub object_type_filter : Bytes → Bytes
object_type_filter [] = []
object_type_filter (c ∷ object_type) = object_key (c ∷ object_type) []

module _ (b : Backend) where
  unfoldable pub get_object : Bytes → Bytes → b.bolt.Tx → Result Object
  unfolding get_message object_key
  get_object object_type object_id tx =
      get_message b.bolt b.objects tx objects_path (object_key object_type object_id)

  unfoldable pub set_object : Object → Exec b.bolt.Tx Object
  unfolding set_message object_key
  set_object obj = set_message b.bolt b.objects objects_path (object_key obj.type obj.id) obj

  unfoldable pub delete_object : Bytes → Bytes → Exec b.bolt.Tx (Unit {0})
  unfolding delete_key object_key
  delete_object object_type object_id =
      delete_key b.bolt objects_path (object_key object_type object_id)

  unfoldable pub scan_objects : Bytes → Bytes → b.bolt.Tx → Result (List (Row Object))
  unfolding scan_rows object_key
  scan_objects object_type page_token tx =
      scan_rows b.bolt b.objects no_object tx objects_path page_token
        (object_type_filter object_type)
