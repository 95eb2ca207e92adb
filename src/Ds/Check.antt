-- ===== src/Ds/Check.antt =====
-- internal/eds/pkg/ds/check.go and checks.go and graph.go: a check of a permission, many
-- of them, and a search of the graph.
use eamerald.Base.{Bool, false, not, Option, none, some, List, if◌then◌else◌}
use eamerald.Base.Bytes.{Bytes}
use eamerald.Base.Exec.{Error, Result, ok, err, object_not_found}
use eamerald.Data.{RelationIdentifier, Direction, by_object, by_subject}
use eamerald.Store.Tx.{Tx}
use eamerald.Ds.Relation.{relation_identifier, filter}

pub record CheckRequest : Type 0 where
  pub object_type : Bytes
  pub object_id : Bytes
  pub relation : Bytes
  pub subject_type : Bytes
  pub subject_id : Bytes

pub record GetGraphRequest : Type 0 where
  pub object_type : Bytes
  pub object_id : Bytes
  pub relation : Bytes
  pub subject_type : Bytes
  pub subject_id : Bytes
  pub subject_relation : Bytes

pub record ObjectIdentifier : Type 0 where
  pub object_type : Bytes
  pub object_id : Bytes

-- The context of a response holds a reason, which is an error, or what the graph search put there.
pub data CheckContext : Type 0 where
  no_context graph_context : CheckContext
  reason : Error → CheckContext

pub record CheckResponse : Type 0 where
  pub check : Bool
  pub context : CheckContext

abbrev pub no_check : CheckResponse
no_check = record { check = false; context = no_context }

-- SetContextWithReason and checkError: a refusal with its reason.
abbrev pub refused : Error → CheckResponse
refused e = record { check = false; context = reason e }

-- What azm does for a check: the validation against the model, the search of the graph, which reads
-- relations through a function that it is given, the requests of a list with the default of the
-- list, the pool of jobs, and the permissions of an object type for a subject type.
pub record Graph : Type 0 where
  pub validate : CheckRequest → Result (Unit {0})
  pub is_complete : Bytes → Bytes → Bool
  pub search_graph :
      CheckRequest
      → (RelationIdentifier → Result (List RelationIdentifier))
      → CheckResponse × Option Error
  pub get_graph :
      GetGraphRequest
      → (RelationIdentifier → Result (List RelationIdentifier))
      → Result (List ObjectIdentifier)
  pub check_requests : CheckRequest → List CheckRequest → List CheckRequest
  pub run_pool : (CheckRequest → CheckResponse) → List CheckRequest → Result (List CheckResponse)
  pub available_permissions : Bytes → Bytes → Result (List Bytes)

module _ (tx : Tx) (graph : Graph) where
  unfoldable pub get_relations : tx.State → RelationIdentifier → Result (List RelationIdentifier)
  unfolding filter relation_identifier
  get_relations s r =
      let (dir, f, accepts) = filter graph.is_complete (relation_identifier r) in
      tx.scan_relations_filtered dir f accepts s

  unfoldable pub exists_or_false : Result Bool → Bool
  exists_or_false (ok b) = b
  exists_or_false (err e) = false

  unfoldable pub relation_identifier_exist : Direction → Bytes → Bytes → tx.State → Bool
  unfolding exists_or_false
  relation_identifier_exist dir object_type object_id s =
      exists_or_false (tx.relations_exist_for_object dir object_type object_id s)

  unfoldable pub relation_identifiers_exist : CheckRequest → tx.State → Result (Unit {0})
  unfolding relation_identifier_exist
  relation_identifiers_exist i s =
      if not (relation_identifier_exist by_subject i.subject_type i.subject_id s)
      then err object_not_found
      else if not (relation_identifier_exist by_object i.object_type i.object_id s)
      then err object_not_found
      else ok tt

  unfoldable pub exec_found :
      CheckRequest → tx.State → Result (Unit {0}) → CheckResponse × Option Error
  unfolding get_relations
  exec_found i s (err e) = (refused e, some e)
  exec_found i s (ok u) = graph.search_graph i (get_relations s)

  unfoldable pub exec_check : CheckRequest → tx.State → CheckResponse × Option Error
  unfolding relation_identifiers_exist exec_found
  exec_check i s = exec_found i s (relation_identifiers_exist i s)

  unfoldable pub or_refused : CheckResponse × Option Error → CheckResponse
  or_refused (resp, none) = resp
  or_refused (resp, some e) = refused e

  unfoldable pub consume_valid : CheckRequest → tx.State → Result (Unit {0}) → CheckResponse
  unfolding or_refused exec_check
  consume_valid i s (err e) = refused e
  consume_valid i s (ok u) = or_refused (exec_check i s)

  -- The consumer of the job pool.
  unfoldable pub consume : tx.State → CheckRequest → CheckResponse
  unfolding consume_valid
  consume s i = consume_valid i s (graph.validate i)

  unfoldable pub exec_checks :
      CheckRequest → List CheckRequest → tx.State → Result (List CheckResponse)
  unfolding consume
  exec_checks default requests s =
      graph.run_pool (consume s) (graph.check_requests default requests)

  unfoldable pub exec_graph : GetGraphRequest → tx.State → Result (List ObjectIdentifier)
  unfolding get_relations
  exec_graph req s = graph.get_graph req (get_relations s)
