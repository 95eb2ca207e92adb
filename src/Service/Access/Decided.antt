-- ===== src/Service/Access/Decided.antt =====
-- What the access API of internal/eds/pkg/directory/v3/access.go grants.
use eamerald.Base.{
  ◌≡◌, refl, sym, ap, ◌∙◌, Option, some, List, [], ◌∷◌, map, keep, Bool-cases, inl, inr,
}
use eamerald.Base.Bytes.{Bytes}
use eamerald.Base.Exec.{Result, ok, err, Result-cases, just_ok}
use eamerald.Store.Tx.{Tx}
use eamerald.Ds.Check.{CheckRequest, CheckResponse, Graph, consume, exec_checks}
use eamerald.Service.Reader.{ReaderContext}
use eamerald.Service.Reader.Check.{checks}
use eamerald.Service.Access.{
  adl_error, logged, granted_actions, action_checks, default_check, EvaluationRequest, get_type,
  get_id, extract_action_search, search_actions, action_search,
}

-- A call of the access API that succeeds has been recorded in the decision log, with the response
-- that it returns.
logged-recorded :
    {Request Response : Type 0} (handler : Request → Result Response)
    (log : Request → Result Response → Result (Unit {0})) (req : Request) (resp : Response)
    → logged handler log req ≡ ok resp
    → (handler req ≡ ok resp) × (log req (ok resp) ≡ ok tt)
unfolding logged adl_error
logged-recorded handler log req resp h = elim (Result-cases (handler req)) [
  | inl (a, e) ↦ elim (Result-cases (log req (ok a))) [
    | inl (u, l) ↦
        let out : ok a ≡ ok resp = rw (e, l) at h in
        let same : a ≡ resp = cc in (rw same at e, rw same at l)
    | inr (x, l) ↦ absurd (cc (rw (e, l) at h))
  ]
  | inr (x, e) ↦ elim (Result-cases (log req (err x))) [
    | inl (u, l) ↦ absurd (cc (rw (e, l) at h))
    | inr (y, l) ↦ absurd (cc (rw (e, l) at h))
  ]
]

-- The check of a subject for a relation to an object.
abbrev pub the_check : Bytes → Bytes → Bytes → Bytes → Bytes → CheckRequest
the_check object_type object_id relation subject_type subject_id = record {
  object_type = object_type;
  object_id = object_id;
  relation = relation;
  subject_type = subject_type;
  subject_id = subject_id;
}

action_checks-map :
    (names : List Bytes) → action_checks names ≡ map (λ name. the_check [] [] name [] []) names
unfolding action_checks
action_checks-map [] = refl
action_checks-map (name ∷ names) =
    ap (λ cs. the_check [] [] name [] [] ∷ cs) (action_checks-map names)

-- What the service relies on in azm: a pool answers every job, in order, and a request that names a
-- relation only takes the rest from a default that names none.
pub record GraphLaws (graph : Graph) : Type 0 where
  pub run_pool-map :
      (consumer : CheckRequest → CheckResponse) (requests : List CheckRequest)
      (resp : List CheckResponse)
      → graph.run_pool consumer requests ≡ ok resp
      → resp ≡ map consumer requests
  pub check_requests-relations :
      (object_type object_id subject_type subject_id : Bytes) (names : List Bytes)
      → graph.check_requests
          (the_check object_type object_id [] subject_type subject_id)
          (map (λ name. the_check [] [] name [] []) names)
        ≡ map (λ name. the_check object_type object_id name subject_type subject_id) names

module _ (f : Bytes → CheckResponse) where
  granted_actions-keep :
      (names : List Bytes)
      → granted_actions names (map f names) ≡ some (keep (λ name. (f name).check) names)
  unfolding granted_actions
  granted_actions-keep [] = refl
  granted_actions-keep (name ∷ names) = elim (Bool-cases (f name).check) [
    | inl granted ↦ rw (granted, granted_actions-keep names)
    | inr refused ↦ rw (refused, granted_actions-keep names)
  ]

map-map :
    {A B C : Type 0} (g : B → C) (f : A → B) (xs : List A)
    → map g (map f xs) ≡ map (λ x. g (f x)) xs
map-map g f [] = refl
map-map g f (x ∷ xs) = ap (λ ys. g (f x) ∷ ys) (map-map g f xs)

module _ (tx : Tx) (ctx : ReaderContext) (laws : GraphLaws ctx.graph) where
  -- The decision of Checks on the subject, the action and the resource of a request.
  abbrev pub action_check : EvaluationRequest → tx.State → Bytes → CheckResponse
  action_check req s name = consume tx ctx.graph s (
      the_check (get_type req.resource) (get_id req.resource) name (get_type req.subject)
        (get_id req.subject))

  -- An action search that succeeds, over a model that offers some permissions, gives those of them
  -- for which Checks grants the action to the subject of the request on its resource, in their
  -- order, and does not panic, provided that azm answers the checks in order and fills in what a
  -- check leaves to the default.
  pub action_search-keep :
      (req : EvaluationRequest) (s : tx.State) (names : List Bytes) (actions : Option (List Bytes))
      → ctx.graph.available_permissions (get_type req.resource) (get_type req.subject) ≡ ok names
      → action_search tx ctx req s ≡ ok actions
      → actions ≡ some (keep (λ name. (action_check req s name).check) names)
  unfolding action_search search_actions checks exec_checks extract_action_search default_check
  action_search-keep req s names actions offered h =
      elim (Result-cases
        (checks tx ctx (default_check (extract_action_search req)) (action_checks names) s)) [
          | inl (resp, e) ↦
              let out : ok (granted_actions names resp) ≡ ok actions = rw (offered, e) at h in
              let answered : resp ≡ map (action_check req s) names =
                laws.run_pool-map _ _ resp e
                ∙ ap
                    (λ cs.
                      map (consume tx ctx.graph s)
                        (ctx.graph.check_requests (default_check (extract_action_search req)) cs))
                    (action_checks-map names)
                ∙ ap (map (consume tx ctx.graph s)) (
                    laws.check_requests-relations (get_type req.resource) (get_id req.resource)
                      (get_type req.subject) (get_id req.subject) names)
                ∙ map-map _ _ names in
              sym (just_ok _ actions out)
              ∙ ap (granted_actions names) answered
              ∙ granted_actions-keep (action_check req s) names
          | inr (x, e) ↦ absurd (cc (rw (offered, e) at h))
        ]
