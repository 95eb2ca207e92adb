-- ===== src/Service/Relations.antt =====
-- internal/eds/pkg/directory/v3/relations.go
use eamerald.Base.{List, [], ◌∷◌}
use eamerald.Base.Bytes.{Bytes}
use eamerald.Base.Exec.{Result, Exec, Result-map, reads, pure, ◌>>=◌, ◌>>◌}
use eamerald.Data.{Relation, Direction, object_only_filter}
use eamerald.Store.Page.{values}
use eamerald.Store.Tx.{Tx}

module _ (tx : Tx) where
  unfoldable pub relations_by_object : Direction → Bytes → Bytes → tx.State → Result (List Relation)
  unfolding object_only_filter
  relations_by_object dir object_type object_id s =
      Result-map values (tx.scan_relations dir (object_only_filter dir object_type object_id) [] s)

  unfoldable pub delete_relations : List Relation → Exec tx.State (Unit {0})
  delete_relations [] = pure tt
  delete_relations (rel ∷ relations) = do tx.delete_relation rel.ident; delete_relations relations

  unfoldable pub delete_relations_with_prefix : Direction → Bytes → Bytes → Exec tx.State (Unit {0})
  unfolding relations_by_object delete_relations
  delete_relations_with_prefix dir object_type object_id = do
    relations ← reads (relations_by_object dir object_type object_id)
    delete_relations relations
