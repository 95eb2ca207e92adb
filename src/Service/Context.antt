-- ===== src/Service/Context.antt =====
-- What the services of internal/eds/pkg/directory/v3 take from other libraries and from the request:
-- the validators of go-directory, the model cache and the hashes of azm, the If-Match header and the
-- clock.
use eamerald.Base.Bytes.{Bytes}
use eamerald.Base.Exec.{Result}
use eamerald.Data.{Timestamp, Object, Relation, RelationIdentifier}

pub record Context : Type 0 where
  pub set_object_request : Object → Result (Unit {0})
  pub delete_object_request : Bytes → Bytes → Result (Unit {0})
  pub set_relation_request : Relation → Result (Unit {0})
  pub delete_relation_request : RelationIdentifier → Result (Unit {0})
  pub valid_object : Object → Result (Unit {0})
  pub valid_relation : Relation → Result (Unit {0})
  pub model_object : Object → Result (Unit {0})
  pub model_object_identifier : Bytes → Bytes → Result (Unit {0})
  pub model_relation : RelationIdentifier → Result (Unit {0})
  pub object_hash : Object → Bytes
  pub relation_hash : RelationIdentifier → Bytes
  pub if_match : Bytes
  pub now : Timestamp
