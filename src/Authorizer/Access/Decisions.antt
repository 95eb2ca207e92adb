-- ===== src/Authorizer/Access/Decisions.antt =====
-- When the AuthZEN Access API of daemon/authorizer/impl/access.go permits.
use eamerald.Base.{
  ◌≡◌, ◌≢◌, refl, ap, sym, ◌∙◌, Bool, true, false, Option, none, some, List, [], ◌∷◌, ◌⊎◌, inl, inr,
  Bool-cases,
}
use eamerald.Base.Bytes.{Bytes, codes, eqb, eqb_iff}
use eamerald.Base.Exec.{Result, ok, err, Result-cases, just_ok}
use eamerald.Data.{Struct, Object, get_fields}
use eamerald.Authorizer.Request.{
  EvaluationRequest, EvalMeta, subject_of, action_of, resource_of, flatten, identity_context,
}
use eamerald.Authorizer.Policy.{policy_path}
use eamerald.Authorizer.Access.{
  Binding, bool_binding, object_binding, other_binding, Field, bool_field, object_field,
  other_field, field, decision_field, with_context, object_response, evaluation_response, Engine,
  Input, first_binding, input_of, decide, respond, evaluate_resolved, evaluate_at, evaluate,
}

-- What permits: the value `true`, or an object whose decision is `true`.
abbrev pub Permits : Binding → Type 0
Permits b =
    (b ≡ bool_binding true)
    ⊎ ((fields : List (Bytes × Field)) × (b ≡ object_binding fields)
        × (field fields decision_field ≡ some (bool_field true)))

with_context-decision :
    (d : Bool) (o : Option Field) → (with_context d o).0.decision ≡ true → d ≡ true
unfolding with_context
with_context-decision d none h = h
with_context-decision d (some (bool_field b)) h = h
with_context-decision d (some (object_field (ok p))) h = h
with_context-decision d (some (object_field (err e))) h = cc
with_context-decision d (some other_field) h = h

object_response-decision :
    (fields : List (Bytes × Field)) (o : Option Field)
    → (object_response fields o).0.decision ≡ true
    → o ≡ some (bool_field true)
unfolding object_response
object_response-decision fields none h = cc
object_response-decision fields (some (bool_field b)) h =
    ap (λ c. some (bool_field c)) (with_context-decision b _ h)
object_response-decision fields (some (object_field r)) h = cc
object_response-decision fields (some other_field) h = cc

evaluation_response-Permits : (b : Binding) → (evaluation_response b).0.decision ≡ true → Permits b
unfolding evaluation_response
evaluation_response-Permits (bool_binding b) h = inl (ap bool_binding h)
evaluation_response-Permits (object_binding fields) h =
    inr (fields, refl, object_response-decision fields _ h)
evaluation_response-Permits other_binding h = cc

respond-Permits :
    (r : Result Binding) → (respond r).0.decision ≡ true → (b : Binding) × (r ≡ ok b) × Permits b
unfolding respond
respond-Permits (err e) h = cc
respond-Permits (ok b) h = (b, refl, evaluation_response-Permits b h)

-- What the policy is evaluated on: the properties of the resolved identity, the properties of the subject,
-- the action and the resource with their types, ids and name, and the context.
abbrev pub the_input : EvaluationRequest → Struct → Input
the_input req identity =
    let subject = subject_of req.subject in
    let resource = resource_of req.resource in
    let action = action_of req.action in
    record {
      identity = identity;
      subject =
          flatten subject.properties ((codes "type", subject.type) ∷ (codes "id", subject.id) ∷ []);
      action = flatten action.properties ((codes "name", action.name) ∷ []);
      resource =
          flatten resource.properties
            ((codes "type", resource.type) ∷ (codes "id", resource.id) ∷ []);
      context = get_fields req.context;
    }

module _ (engine : Engine) where
  -- The first result of the query for the one rule of a policy has this binding.
  abbrev pub IsBound : Bytes → Bytes → Input → Binding → Type 0
  IsBound path rule input b =
      (query : engine.Query) × (results : List (Option Binding)) × (engine.decision_query path
          (rule ∷ [])
        ≡ ok query)
      × (engine.eval query input ≡ ok (some b ∷ results))

  first_binding-some :
      (results : List (Option Binding)) (b : Binding)
      → first_binding results ≡ ok b
      → (rest : List (Option Binding)) × (results ≡ some b ∷ rest)
  unfolding first_binding
  first_binding-some [] b h = absurd (cc h)
  first_binding-some (none ∷ results) b h = absurd (cc h)
  first_binding-some (some a ∷ results) b h =
      (results, ap (λ (c : Binding). some c ∷ results) (just_ok a b h))

  decide-IsBound :
      (path rule : Bytes) (input : Input) (b : Binding)
      → decide engine path rule input ≡ ok b
      → IsBound path rule input b
  unfolding decide
  decide-IsBound path rule input b h =
      elim (Result-cases (engine.decision_query path (rule ∷ []))) [
        | inr (x, e) ↦ absurd (cc (rw e at h))
        | inl (query, e) ↦ elim (Result-cases (engine.eval query input)) [
          | inr (x, f) ↦ absurd (cc (rw (e, f) at h))
          | inl (results, f) ↦
              let (rest, same) = first_binding-some results b (rw (e, f) at h) in
              (query, rest, e, f ∙ ap ok same)
        ]
      ]

  -- Why a request is permitted: its action is named, the policy path is the one the request selects,
  -- the identity of its subject resolves, and the rule of the action binds a value that permits.
  abbrev pub PermittedBy : EvaluationRequest → Type 0
  PermittedBy req =
      ((action_of req.action).name ≢ [])
      × ((path : Bytes) × (identity : Option Object × Struct) × (b : Binding) × (policy_path
              engine.configured_root engine.policy_packages req.context
            ≡ ok path)
          × (engine.resolve_identity (identity_context req.subject) ≡ ok identity)
          × IsBound path (action_of req.action).name (the_input req identity.1) b
          × Permits b)

  evaluate_resolved-PermittedBy :
      (req : EvaluationRequest) (meta : EvalMeta) (r : Result (Option Object × Struct))
      → (evaluate_resolved engine req meta r).0.decision ≡ true
      → (identity : Option Object × Struct) × (b : Binding) × (r ≡ ok identity)
        × (decide engine meta.policy_path (action_of req.action).name (input_of req identity.1)
            ≡ ok b)
        × Permits b
  unfolding evaluate_resolved
  evaluate_resolved-PermittedBy req meta (err e) h = cc
  evaluate_resolved-PermittedBy req meta (ok (user, identity)) h =
      let (b, found, permits) = respond-Permits _ h in ((user, identity), b, refl, found, permits)

  evaluate_at-PermittedBy :
      (req : EvaluationRequest) (meta : EvalMeta) (r : Result Bytes)
      → (evaluate_at engine req meta r).0.decision ≡ true
      → (path : Bytes) × (identity : Option Object × Struct) × (b : Binding) × (r ≡ ok path)
        × (engine.resolve_identity meta.identity ≡ ok identity)
        × (decide engine path (action_of req.action).name (input_of req identity.1) ≡ ok b)
        × Permits b
  unfolding evaluate_at
  evaluate_at-PermittedBy req meta (err e) h = cc
  evaluate_at-PermittedBy req meta (ok path) h =
      let (identity, b, known, found, permits) = evaluate_resolved-PermittedBy req _ _ h in
      (path, identity, b, refl, known, found, permits)

  -- An evaluation permits only when the action is named, the policy path that the request selects
  -- is found, the identity of the subject resolves, and the query for the rule of the action alone,
  -- prepared for that path and evaluated on the resolved identity with the subject, action,
  -- resource and context of the request, has a first result that binds `true` or an object whose
  -- decision is `true`. Every error and every other binding refuses.
  pub evaluate-PermittedBy :
      (req : EvaluationRequest) → (evaluate engine req).0.decision ≡ true → PermittedBy req
  unfolding evaluate input_of
  evaluate-PermittedBy req h = elim (Bool-cases (eqb (action_of req.action).name [])) [
    | inl unnamed ↦ absurd (refused (rw unnamed at h))
    | inr named ↦ (
      λ e. unequal (eqb_iff (action_of req.action).name []).1 named e,
      bound (evaluate_at-PermittedBy req _ _ (rw named at h)),
    )
  ]
    where
      bound :
          ((path : Bytes) × (identity : Option Object × Struct) × (b : Binding) × (policy_path
                engine.configured_root engine.policy_packages req.context
              ≡ ok path)
            × (engine.resolve_identity (identity_context req.subject) ≡ ok identity)
            × (decide engine path (action_of req.action).name (input_of req identity.1) ≡ ok b)
            × Permits b)
          → (path : Bytes) × (identity : Option Object × Struct) × (b : Binding) × (policy_path
                engine.configured_root engine.policy_packages req.context
              ≡ ok path)
            × (engine.resolve_identity (identity_context req.subject) ≡ ok identity)
            × IsBound path (action_of req.action).name (the_input req identity.1) b
            × Permits b
      bound (path, identity, b, selected, known, decided, permits) =
          (path, identity, b, selected, known, decide-IsBound path _ _ b decided, permits)

      refused : false ≡ true → ⊥
      refused e = cc

      unequal :
          ((action_of req.action).name ≡ [] → eqb (action_of req.action).name [] ≡ true)
          → eqb (action_of req.action).name [] ≡ false
          → (action_of req.action).name ≡ []
          → ⊥
      unequal f n e = refused (sym n ∙ f e)
