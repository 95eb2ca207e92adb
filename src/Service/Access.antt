-- ===== src/Service/Access.antt =====
-- internal/eds/pkg/directory/v3/access.go: the AuthZEN access API over the checks and the graph of the
-- reader. The responses that go with an error are left out, since gRPC sends the error alone.
pub mod Decided
use eamerald.Base.{Bool, true, false, Option, none, some, List, [], ◌∷◌, map, if◌then◌else◌}
use eamerald.Base.Bytes.{Bytes, eqb}
use eamerald.Base.Exec.{Error, Result, ok, err, bind_result, Result-map}
use eamerald.Store.Tx.{Tx}
use eamerald.Ds.Check.{
  CheckRequest, CheckContext, no_context, graph_context, reason, CheckResponse, GetGraphRequest,
  ObjectIdentifier,
}
use eamerald.Service.Reader.{ReaderContext}
use eamerald.Service.Reader.Check.{check, checks, get_graph}

-- dsa.Subject and dsa.Resource
pub record Entity : Type 0 where
  pub type : Bytes
  pub id : Bytes

-- Each part of a request is a pointer that may be nil; the action is its name.
pub record EvaluationRequest : Type 0 where
  pub subject : Option Entity
  pub action : Option Bytes
  pub resource : Option Entity

pub record EvaluationsRequest : Type 0 where
  pub default : EvaluationRequest
  pub evaluations : List EvaluationRequest

pub record EvaluationResponse : Type 0 where
  pub decision : Bool
  pub context : CheckContext

-- The getters of a nil message return zero values.
abbrev pub get_type : Option Entity → Bytes
get_type none = []
get_type (some e) = e.type

abbrev pub get_id : Option Entity → Bytes
get_id none = []
get_id (some e) = e.id

abbrev pub get_name : Option Bytes → Bytes
get_name none = []
get_name (some name) = name

unfoldable pub extract_check : EvaluationRequest → CheckRequest
extract_check req = record {
  object_type = get_type req.resource;
  object_id = get_id req.resource;
  relation = get_name req.action;
  subject_type = get_type req.subject;
  subject_id = get_id req.subject;
}

unfoldable pub extract_checks : EvaluationsRequest → CheckRequest × List CheckRequest
unfolding extract_check
extract_checks req = (extract_check req.default, map extract_check req.evaluations)

unfoldable pub extract_decision : CheckResponse → EvaluationResponse
extract_decision v = record { decision = v.check; context = v.context }

unfoldable pub extract_decisions : List CheckResponse → List EvaluationResponse
unfolding extract_decision
extract_decisions resp = map extract_decision resp

unfoldable pub extract_subject_search : EvaluationRequest → GetGraphRequest
extract_subject_search req = record {
  object_type = get_type req.resource;
  object_id = get_id req.resource;
  relation = get_name req.action;
  subject_type = get_type req.subject;
  subject_id = [];
  subject_relation = [];
}

unfoldable pub extract_resource_search : EvaluationRequest → GetGraphRequest
extract_resource_search req = record {
  object_type = get_type req.resource;
  object_id = [];
  relation = get_name req.action;
  subject_type = get_type req.subject;
  subject_id = get_id req.subject;
  subject_relation = [];
}

unfoldable pub extract_action_search : EvaluationRequest → GetGraphRequest
extract_action_search req = record {
  object_type = get_type req.resource;
  object_id = get_id req.resource;
  relation = [];
  subject_type = get_type req.subject;
  subject_id = get_id req.subject;
  subject_relation = [];
}

-- A record of the decision log that failed fails an evaluation that did not.
unfoldable pub adl_error : {A : Type 0} → Result A → Result (Unit {0}) → Result A
adl_error resp (ok u) = resp
adl_error (ok a) (err log) = err log
adl_error (err e) (err log) = err e

abbrev pub prepend : Bytes → Option (List Bytes) → Option (List Bytes)
prepend name none = none
prepend name (some names) = some (name ∷ names)

-- A call: the handler, and one record of the decision log.
unfoldable pub logged :
    {Request Response : Type 0}
    → (Request → Result Response)
    → (Request → Result Response → Result (Unit {0}))
    → Request
    → Result Response
unfolding adl_error
logged handler log req = adl_error (handler req) (log req (handler req))

-- The names of the actions whose check is granted: `assignable[i]` for the i-th check. None is the
-- panic of an index out of range, for more checks than names.
unfoldable pub granted_actions : List Bytes → List CheckResponse → Option (List Bytes)
granted_actions names [] = some []
granted_actions [] (c ∷ responses) =
    let rest = granted_actions [] responses in if c.check then none else rest
granted_actions (name ∷ names) (c ∷ responses) =
    let rest = granted_actions names responses in if c.check then prepend name rest else rest

-- One request for each name, which leaves the rest to the default.
unfoldable pub action_checks : List Bytes → List CheckRequest
action_checks [] = []
action_checks (name ∷ names) =
    record { object_type = []; object_id = []; relation = name; subject_type = []; subject_id = [] }
    ∷ action_checks names

unfoldable pub default_check : GetGraphRequest → CheckRequest
default_check req = record {
  object_type = req.object_type;
  object_id = req.object_id;
  relation = [];
  subject_type = req.subject_type;
  subject_id = req.subject_id;
}

unfoldable pub entities : List ObjectIdentifier → List Entity
entities [] = []
entities (oid ∷ oids) = record { type = oid.object_type; id = oid.object_id } ∷ entities oids

module _ (tx : Tx) (ctx : ReaderContext) where
  -- The check of the reader reports no error.
  unfoldable pub evaluation : EvaluationRequest → tx.State → EvaluationResponse
  unfolding extract_check extract_decision check
  evaluation req s = extract_decision (check tx ctx (extract_check req) s)

  unfoldable pub evaluations : EvaluationsRequest → tx.State → Result (List EvaluationResponse)
  unfolding extract_checks extract_decisions checks
  evaluations req s =
      let (default, requests) = extract_checks req in
      Result-map extract_decisions (checks tx ctx default requests s)

  unfoldable pub subject_search : EvaluationRequest → tx.State → Result (List Entity)
  unfolding extract_subject_search get_graph entities
  subject_search req s = Result-map entities (get_graph tx ctx (extract_subject_search req) s)

  unfoldable pub resource_search : EvaluationRequest → tx.State → Result (List Entity)
  unfolding extract_resource_search get_graph entities
  resource_search req s = Result-map entities (get_graph tx ctx (extract_resource_search req) s)

  unfoldable pub search_actions : GetGraphRequest → tx.State → Result (Option (List Bytes))
  unfolding action_checks default_check checks granted_actions
  search_actions req s =
      bind_result (ctx.graph.available_permissions req.object_type req.subject_type) λ assignable.
        Result-map (granted_actions assignable)
          (checks tx ctx (default_check req) (action_checks assignable) s)

  unfoldable pub action_search : EvaluationRequest → tx.State → Result (Option (List Bytes))
  unfolding extract_action_search search_actions
  action_search req s = search_actions (extract_action_search req) s
