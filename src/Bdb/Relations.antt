-- ===== src/Bdb/Relations.antt =====
-- internal/eds/pkg/bdb/relation_store.go: relations under two keys, one in each index.
pub mod Index
pub mod Lookup
pub mod Prefix
pub mod Complete
pub mod Exists
use eamerald.Base.{Bool, List}
use eamerald.Base.Bytes.{Bytes}
use eamerald.Base.Exec.{Result, Exec, pure, ◌>>=◌, ◌>>◌}
use eamerald.Data.{
  Relation, RelationIdentifier, RelationFilter, Direction, no_relation, object_only_filter,
}
use eamerald.Bolt.{Backend}
use eamerald.Bdb.Bucket.{
  relations_obj_path, relations_sub_path, get_message, set_message, delete_key,
}
use eamerald.Bdb.Keys.{obj_key, sub_key, direction_path, direction_filter}
use eamerald.Bdb.Scan.{Row, scan_rows, scan_with_filter, key_prefix_exists}

module _ (b : Backend) where
  unfoldable pub get_relation_exact : RelationIdentifier → b.bolt.Tx → Result Relation
  unfolding get_message obj_key
  get_relation_exact ident tx = get_message b.bolt b.relations tx relations_obj_path (obj_key ident)

  unfoldable pub set_relation : Relation → Exec b.bolt.Tx Relation
  unfolding set_message obj_key sub_key
  set_relation rel = do
    obj_rel ← set_message b.bolt b.relations relations_obj_path (obj_key rel.ident) rel
    _ ← set_message b.bolt b.relations relations_sub_path (sub_key rel.ident) rel
    pure obj_rel

  unfoldable pub delete_relation : RelationIdentifier → Exec b.bolt.Tx (Unit {0})
  unfolding delete_key obj_key sub_key
  delete_relation ident = do
    delete_key b.bolt relations_obj_path (obj_key ident)
    delete_key b.bolt relations_sub_path (sub_key ident)

  unfoldable pub scan_relations :
      Direction → RelationFilter → Bytes → b.bolt.Tx → Result (List (Row Relation))
  unfolding scan_rows direction_path direction_filter
  scan_relations dir filter page_token tx =
      scan_rows b.bolt b.relations no_relation tx (direction_path dir) page_token
        (direction_filter dir filter)

  unfoldable pub scan_relations_filtered :
      Direction
      → RelationFilter
      → (RelationIdentifier → Bool)
      → b.bolt.Tx
      → Result (List RelationIdentifier)
  unfolding scan_with_filter direction_path direction_filter
  scan_relations_filtered dir filter value_filter tx =
      scan_with_filter b.bolt b.unmarshal_identifier value_filter tx (direction_path dir)
        (direction_filter dir filter)

  unfoldable pub relations_exist_for_object : Direction → Bytes → Bytes → b.bolt.Tx → Result Bool
  unfolding key_prefix_exists direction_path direction_filter object_only_filter
  relations_exist_for_object dir object_type object_id tx =
      key_prefix_exists b.bolt tx (direction_path dir)
        (direction_filter dir (object_only_filter dir object_type object_id))
