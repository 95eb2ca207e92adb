-- ===== src/Authorizer/Access/Batch.antt =====
-- What a batch of daemon/authorizer/impl/access.go answers.
use eamerald.Base.{◌≡◌, ◌≢◌, refl, ap, sym, ◌∙◌, Option, none, some, List, [], ◌∷◌, ◌++◌, map, All}
use mathlib.Core.List.{append_assoc, append-nil}
use eamerald.Base.Exec.{Error, Result, ok, err}
use eamerald.Authorizer.Request.{
  EvaluationRequest, EvaluationsRequest, EvalMeta, first_set, defaulted,
}
use eamerald.Authorizer.Access.{
  EvaluationResponse, Engine, Evaluated, evaluate, after_outcome, evaluate_batch, start_batch,
  batch_meta, evaluations,
}

-- What a request brings itself, or else what the batch has.
abbrev pub own_or {ℓ} : {A : Type ℓ} → Option A → Option A → Option A
own_or own batch = elim own [ some a ↦ some a | none ↦ batch ]

abbrev pub completed : EvaluationsRequest → EvaluationRequest → EvaluationRequest
completed batch req = record {
  subject = own_or req.subject batch.subject;
  action = own_or req.action batch.action;
  resource = own_or req.resource batch.resource;
  context = own_or req.context batch.context;
}

first_set-own_or : {A : Type 0} (own batch : Option A) → first_set own batch ≡ own_or own batch
first_set-own_or none batch = refl
first_set-own_or (some a) batch = refl

defaulted-completed :
    (batch : EvaluationsRequest) (req : EvaluationRequest)
    → defaulted batch req ≡ completed batch req
unfolding defaulted
defaulted-completed batch req =
    rw
      (
        first_set-own_or req.subject batch.subject,
        first_set-own_or req.action batch.action,
        first_set-own_or req.resource batch.resource,
        first_set-own_or req.context batch.context,
      )
      refl

module _ (engine : Engine) where
  abbrev pub answer : EvaluationsRequest → EvaluationRequest → EvaluationResponse
  answer batch req = (evaluate engine (completed batch req)).0

  abbrev pub Succeeds : EvaluationsRequest → EvaluationRequest → Type 0
  Succeeds batch req = (evaluate engine (completed batch req)).2 ≡ none

  after_outcome-none :
      (rest : List EvaluationResponse
        → EvalMeta
        → List EvaluationResponse × EvalMeta × Option Error)
      (req : EvaluationRequest) (resp : List EvaluationResponse) (meta : EvalMeta)
      (o : EvaluationResponse × EvalMeta × Option Error)
      → (after_outcome engine rest req resp meta o).2 ≡ none
      → (o.2 ≡ none)
        × ((m : EvalMeta) × (after_outcome engine rest req resp meta o ≡ rest (resp ++ o.0 ∷ []) m))
  unfolding after_outcome
  after_outcome-none rest req resp meta (outcome, m, some e) h = cc
  after_outcome-none rest req resp meta (outcome, m, none) h = (refl, (_, refl))

  evaluate_batch-map :
      (batch : EvaluationsRequest) (reqs : List EvaluationRequest) (resp : List EvaluationResponse)
      (meta : EvalMeta)
      → (evaluate_batch engine batch reqs resp meta).2 ≡ none
      → ((evaluate_batch engine batch reqs resp meta).0 ≡ resp ++ map (answer batch) reqs)
        × All (Succeeds batch) reqs
  unfolding evaluate_batch
  evaluate_batch-map batch [] resp meta h = (sym (append-nil resp), tt)
  evaluate_batch-map batch (req ∷ reqs) resp meta h =
      let raw : Evaluated engine = evaluate engine (defaulted batch req) in
      let full : raw ≡ evaluate engine (completed batch req) =
        ap (evaluate engine) (defaulted-completed batch req) in
      let (good, (m, same)) =
        after_outcome-none (evaluate_batch engine batch reqs) req resp meta raw h in
      let (out, all) = evaluate_batch-map batch reqs (resp ++ raw.0 ∷ []) m (rw same at h) in
      (
        ap (λ p. p.0) same
            ∙ out
            ∙ append_assoc resp (raw.0 ∷ []) (map (answer batch) reqs)
            ∙ ap (λ (o : Evaluated engine). resp ++ o.0 ∷ map (answer batch) reqs) full,
        (ap (λ (o : Evaluated engine). o.2) (sym full) ∙ good, all),
      )

  start_batch-map :
      (batch : EvaluationsRequest) (reqs : List EvaluationRequest) (runtime : Result (Unit {0}))
      → (start_batch engine batch reqs runtime).2 ≡ none
      → ((start_batch engine batch reqs runtime).0 ≡ map (answer batch) reqs)
        × All (Succeeds batch) reqs
        × (reqs ≢ [])
  unfolding start_batch
  start_batch-map batch [] runtime h = cc
  start_batch-map batch (req ∷ reqs) (err e) h = cc
  start_batch-map batch (req ∷ reqs) (ok u) h =
      let (out, all) = evaluate_batch-map batch (req ∷ reqs) [] (batch_meta engine batch) h in
      (out, all, λ e. nonempty e)
    where
      nonempty : req ∷ reqs ≡ [] → ⊥
      nonempty e = cc

  -- When a batch ends without an error it has requests, each of which, with what it does not bring
  -- itself taken from the batch (subject, action, resource, context), evaluates without an error,
  -- and the responses are theirs in the order of the requests.
  pub evaluations-map :
      (batch : EvaluationsRequest)
      → (evaluations engine batch).2 ≡ none
      → ((evaluations engine batch).0 ≡ map (answer batch) batch.evaluations)
        × All (Succeeds batch) batch.evaluations
        × (batch.evaluations ≢ [])
  unfolding evaluations
  evaluations-map batch h = start_batch-map batch batch.evaluations engine.get_runtime h
