-- ===== src/Authorizer/Access.antt =====
-- The AuthZEN Access API of the authorizer: daemon/authorizer/impl/access.go, with adlError of
-- adl.go. A Go function that returns a value beside its error returns both here.
pub mod Decisions
pub mod Batch
pub mod Log
use eamerald.Base.{
  ℕ, ◌≡◌, Bool, true, false, not, ◌&&◌, Option, none, some, List, [], ◌∷◌, ◌++◌, if◌then◌else◌,
}
use eamerald.Base.Bytes.{Bytes, eqb, codes}
use eamerald.Base.Exec.{
  Error, Result, ok, err, bind_result, or_error, Result-map, bad_query, invalid_argument,
  unimplemented,
}
use eamerald.Data.{Struct, get_fields, Object}
use eamerald.Authorizer.Request.{
  Subject, Action, EvaluationRequest, EvaluationsRequest, IdentityContext, EvalMeta, subject_of,
  action_of, resource_of, identity_context, flatten, defaulted, logged_request, logged_requests,
}
use eamerald.Authorizer.Policy.{policy_path}

-- What a rule may bind, as far as the program looks into it: the values of an object are a boolean,
-- an object that may or may not be a structpb.Struct, or something else.
pub data Field : Type 0 where
  bool_field : Bool → Field
  object_field : Result Struct → Field
  other_field : Field

pub data Binding : Type 0 where
  bool_binding : Bool → Binding
  object_binding : List (Bytes × Field) → Binding
  other_binding : Binding

abbrev pub field : List (Bytes × Field) → Bytes → Option Field
field [] key = none
field ((k, v) ∷ fields) key = if eqb k key then some v else field fields key

pub record EvaluationResponse : Type 0 where
  pub decision : Bool
  pub context : Option Struct

abbrev pub no_response : EvaluationResponse
no_response = record { decision = false; context = none }

abbrev pub decision_field : Bytes
decision_field = codes "decision"

abbrev pub context_field : Bytes
context_field = codes "context"

-- The value of a Go function that returns an error beside it.
abbrev pub With : Type 0 → Type 0
With A = A × Option Error

unfoldable pub with_context : Bool → Option Field → With EvaluationResponse
with_context decision (some (object_field (ok properties))) =
    (record { decision = decision; context = some properties }, none)
with_context decision (some (object_field (err e))) = (no_response, some bad_query)
with_context decision _ = (record { decision = decision; context = none }, none)

unfoldable pub object_response : List (Bytes × Field) → Option Field → With EvaluationResponse
unfolding with_context
object_response fields (some (bool_field decision)) =
    with_context decision (field fields context_field)
object_response fields _ = (no_response, some bad_query)

unfoldable pub evaluation_response : Binding → With EvaluationResponse
unfolding object_response
evaluation_response (bool_binding b) = (record { decision = b; context = none }, none)
evaluation_response (object_binding fields) = object_response fields (field fields decision_field)
evaluation_response other_binding = (no_response, some bad_query)

-- The input of a policy: what the identity resolved to, and the elements of the request.
pub record Input : Type 0 where
  pub identity : Struct
  pub subject : Struct
  pub action : Struct
  pub resource : Struct
  pub context : Struct

-- The runtime, the cache of prepared queries and the resolver of identities. An evaluation yields a
-- list of results, each with the binding of the rule if there is one.
pub record Engine : Type 1 where
  pub Query : Type 0
  pub get_runtime : Result (Unit {0})
  pub configured_root : Bytes
  pub policy_packages : Result (List Bytes)
  pub resolve_identity : IdentityContext → Result (Option Object × Struct)
  pub decision_query : Bytes → List Bytes → Result Query
  pub eval : Query → Input → Result (List (Option Binding))

unfoldable pub input_of : EvaluationRequest → Struct → Input
unfolding flatten
input_of req identity = record {
  identity = identity;
  subject = flatten (subject_of req.subject).properties (
      (codes "type", (subject_of req.subject).type)
      ∷ (codes "id", (subject_of req.subject).id)
      ∷ []);
  action =
      flatten (action_of req.action).properties ((codes "name", (action_of req.action).name) ∷ []);
  resource = flatten (resource_of req.resource).properties (
      (codes "type", (resource_of req.resource).type)
      ∷ (codes "id", (resource_of req.resource).id)
      ∷ []);
  context = get_fields req.context;
}

unfoldable pub first_binding : List (Option Binding) → Result Binding
first_binding [] = err bad_query
first_binding (none ∷ results) = err bad_query
first_binding (some binding ∷ results) = ok binding

unfoldable pub respond : Result Binding → With EvaluationResponse
unfolding evaluation_response
respond (err e) = (no_response, some e)
respond (ok binding) = evaluation_response binding

abbrev pub path_or_empty : Result Bytes → Bytes
path_or_empty (ok path) = path
path_or_empty (err e) = []

abbrev pub meta_of : Option Subject → EvalMeta
meta_of subject = record { policy_path = []; identity = identity_context subject; user = none }

module _ (engine : Engine) where
  -- What the policy binds for an action, from the query to the first result.
  unfoldable pub decide : Bytes → Bytes → Input → Result Binding
  unfolding first_binding
  decide path action input =
      bind_result (engine.decision_query path (action ∷ []))
        λ query. bind_result (or_error (engine.eval query input) bad_query) first_binding

  abbrev pub Evaluated : Type 0
  Evaluated = EvaluationResponse × EvalMeta × Option Error

  unfoldable pub evaluate_resolved :
      EvaluationRequest
      → EvalMeta
      → Result (Option Object × Struct)
      → EvaluationResponse × EvalMeta × Option Error
  unfolding decide respond input_of
  evaluate_resolved req meta (err e) = (no_response, meta, some e)
  evaluate_resolved req meta (ok (user, identity)) =
      let (resp, e) =
        respond (decide meta.policy_path (action_of req.action).name (input_of req identity)) in
      (resp, record meta { user = user }, e)

  unfoldable pub evaluate_at :
      EvaluationRequest → EvalMeta → Result Bytes → EvaluationResponse × EvalMeta × Option Error
  unfolding evaluate_resolved
  evaluate_at req meta (err e) = (no_response, meta, some e)
  evaluate_at req meta (ok path) =
      evaluate_resolved req (record meta { policy_path = path })
        (engine.resolve_identity meta.identity)

  unfoldable pub evaluate : EvaluationRequest → EvaluationResponse × EvalMeta × Option Error
  unfolding evaluate_at policy_path
  evaluate req =
      if eqb (action_of req.action).name []
      then (no_response, meta_of req.subject, some invalid_argument)
      else evaluate_at req (meta_of req.subject)
          (policy_path engine.configured_root engine.policy_packages req.context)

  unfoldable pub evaluation : EvaluationRequest → EvaluationResponse × EvalMeta × Option Error
  unfolding evaluate
  evaluation req = started engine.get_runtime
    where
      started : Result (Unit {0}) → EvaluationResponse × EvalMeta × Option Error
      started (err e) = (no_response, meta_of req.subject, some e)
      started (ok u) = evaluate req

  -- The batch's user is the one of a request that brings no subject of its own.
  unfoldable pub meta_user : EvalMeta → EvaluationRequest → EvalMeta → EvalMeta
  meta_user meta req outcome = pick meta.user req.subject
    where
      pick : Option Object → Option Subject → EvalMeta
      pick none none = record meta { user = outcome.user }
      pick _ _ = meta

  -- The rest of the batch after one outcome.
  unfoldable pub after_outcome :
      (List EvaluationResponse → EvalMeta → List EvaluationResponse × EvalMeta × Option Error)
      → EvaluationRequest
      → List EvaluationResponse
      → EvalMeta
      → EvaluationResponse × EvalMeta × Option Error
      → List EvaluationResponse × EvalMeta × Option Error
  unfolding meta_user
  after_outcome rest req resp meta (outcome, outcome_meta, some e) = (resp, meta, some e)
  after_outcome rest req resp meta (outcome, outcome_meta, none) =
      rest (resp ++ outcome ∷ []) (meta_user meta req outcome_meta)

  unfoldable pub evaluate_batch :
      EvaluationsRequest
      → List EvaluationRequest
      → List EvaluationResponse
      → EvalMeta
      → List EvaluationResponse × EvalMeta × Option Error
  unfolding evaluate defaulted after_outcome
  evaluate_batch batch [] resp meta = (resp, meta, none)
  evaluate_batch batch (req ∷ reqs) resp meta =
      after_outcome (evaluate_batch batch reqs) req resp meta (evaluate (defaulted batch req))

  -- The policy path of a batch is the empty one when none can be told.
  abbrev pub batch_meta : EvaluationsRequest → EvalMeta
  batch_meta batch = record (meta_of batch.subject) {
    policy_path =
        path_or_empty (policy_path engine.configured_root engine.policy_packages batch.context);
  }

  unfoldable pub start_batch :
      EvaluationsRequest
      → List EvaluationRequest
      → Result (Unit {0})
      → List EvaluationResponse × EvalMeta × Option Error
  unfolding evaluate_batch policy_path
  start_batch batch [] runtime = ([], meta_of batch.subject, some invalid_argument)
  start_batch batch (req ∷ reqs) (err e) = ([], meta_of batch.subject, some e)
  start_batch batch (req ∷ reqs) (ok u) = evaluate_batch batch (req ∷ reqs) [] (batch_meta batch)

  unfoldable pub evaluations :
      EvaluationsRequest → List EvaluationResponse × EvalMeta × Option Error
  unfolding start_batch
  evaluations batch = start_batch batch batch.evaluations engine.get_runtime

-- adlError: what a call returns when the decision was evaluated and then logged.
unfoldable pub adl_error : Option Error → Option Error → Option Error
adl_error eval_err none = eval_err
adl_error (some e) (some log_err) = some e
adl_error none (some log_err) = some log_err
