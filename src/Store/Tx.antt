-- ===== src/Store/Tx.antt =====
-- internal/eds/pkg/store/store.go: the operations of a transaction that the services use, and what
-- the services rely on.
use eamerald.Base.{◌≡◌, ◌≢◌, Bool, List}
use eamerald.Base.Bytes.{Bytes}
use eamerald.Base.Exec.{Error, Result, ok, err, Exec}
use eamerald.Ds.Object.{str_key}
use eamerald.Data.{Object, Relation, RelationIdentifier, RelationFilter, Direction}

-- Reads cannot change the state. A scan is the list of its rows, each with its token.
pub record Tx : Type 1 where
  pub State : Type 0
  pub get_object : Bytes → Bytes → State → Result Object
  pub set_object : Object → Exec State Object
  pub delete_object : Bytes → Bytes → Exec State (Unit {0})
  pub scan_objects : Bytes → Bytes → State → Result (List (Object × Bytes))
  pub get_relation_exact : RelationIdentifier → State → Result Relation
  pub set_relation : Relation → Exec State Relation
  pub delete_relation : RelationIdentifier → Exec State (Unit {0})
  pub scan_relations : Direction → RelationFilter → Bytes → State → Result (List (Relation × Bytes))
  pub scan_relations_filtered :
      Direction
      → RelationFilter
      → (RelationIdentifier → Bool)
      → State
      → Result (List RelationIdentifier)
  pub relations_exist_for_object : Direction → Bytes → Bytes → State → Result Bool

-- A successful write is read back, and what it stored is what it returns.
pub record TxLaws (tx : Tx) : Type 0 where
  pub get_object-set_object :
      (o o' : Object) (s s' : tx.State)
      → tx.set_object o s ≡ (ok o', s')
      → tx.get_object o.type o.id s' ≡ ok o
  pub set_object-result :
      (o o' : Object) (s s' : tx.State) → tx.set_object o s ≡ (ok o', s') → o' ≡ o
  pub get_object-delete_object :
      (object_type object_id : Bytes) (s s' : tx.State)
      → tx.delete_object object_type object_id s ≡ (ok tt, s')
      → (e : Error) × (tx.get_object object_type object_id s' ≡ err e)
  pub get_relation_exact-set_relation :
      (r r' : Relation) (s s' : tx.State)
      → tx.set_relation r s ≡ (ok r', s')
      → tx.get_relation_exact r.ident s' ≡ ok r
  pub get_relation_exact-delete_relation :
      (i : RelationIdentifier) (s s' : tx.State)
      → tx.delete_relation i s ≡ (ok tt, s')
      → (e : Error) × (tx.get_relation_exact i s' ≡ err e)

-- An object is found by its key, and a delete of an object, whether it succeeds or not, leaves the
-- objects with other keys alone. A delete of a relation leaves every object alone.
pub record ObjectFrame (tx : Tx) : Type 0 where
  pub get_object-delete_other :
      (object_type object_id other_type other_id : Bytes) (s : tx.State)
      → str_key object_type object_id ≢ str_key other_type other_id
      → tx.get_object other_type other_id (tx.delete_object object_type object_id s).1
        ≡ tx.get_object other_type other_id s
  pub get_object-delete_relation :
      (object_type object_id : Bytes) (i : RelationIdentifier) (s : tx.State)
      → tx.get_object object_type object_id (tx.delete_relation i s).1
        ≡ tx.get_object object_type object_id s
  pub get_object-key :
      (object_type object_id other_type other_id : Bytes) (s : tx.State)
      → str_key object_type object_id ≡ str_key other_type other_id
      → tx.get_object object_type object_id s ≡ tx.get_object other_type other_id s
