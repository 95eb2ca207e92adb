-- ===== src/Tests/Decided.antt =====
-- Runs of the theorems on the Access API of daemon/authorizer, with an engine that permits whatever
-- reaches it.
use eamerald.Base.{ℕ, ◌≡◌, ◌≢◌, refl, true, none, some, List, [], ◌∷◌, ◌⊎◌, ◌++◌, map, All}
use eamerald.Base.Bytes.{Bytes, codes, eqb}
use eamerald.Base.Exec.{bad_query, err, ok}
use eamerald.Data.{Object, no_object, no_relation, Struct, string_value}
use eamerald.Authorizer.Request.{
  Subject, IdentityContext, identity_sub, EvaluationRequest, EvaluationsRequest, identity_context,
  logged_request, string_property,
}
use eamerald.Authorizer.Policy.{
  contains, policy_roots, policy_path, doelbinding_prefix, doelbinding_key,
}
use eamerald.Authorizer.Policy.Selection.{policy_path-contained}
use eamerald.Authorizer.QueryCache.{
  Compiler, Event, asks_query, asks_packages, rotates, serve, new_cache,
}
use eamerald.Authorizer.QueryCache.Transparent.{IsKeyable, answer_directly, serve-answer_directly}
use eamerald.Authorizer.Access.{Engine, bool_binding, EvaluationResponse, evaluate, evaluations}
use eamerald.Authorizer.Access.Decisions.{PermittedBy, evaluate-PermittedBy}
use eamerald.Authorizer.Access.Batch.{answer, Succeeds, evaluations-map}
use eamerald.Authorizer.Identity.{Directory, RelationAnswer, user_type, resolve_identity_context}
use eamerald.Authorizer.Identity.Resolved.{ResolvesTo, resolve_identity_context-ResolvesTo}
use eamerald.Authorizer.Access.Log.{logged_request-token}

abbrev packages : List Bytes
packages = codes "app.main" ∷ codes "doelbinding.laadpalen" ∷ codes "app.util" ∷ []

abbrev engine : Engine
engine = record {
  Query = Bytes;
  get_runtime = ok tt;
  configured_root = [];
  policy_packages = ok packages;
  resolve_identity = λ i. ok (none, []);
  decision_query = λ path actions. ok path;
  eval = λ query input. ok (some (bool_binding true) ∷ []);
}

-- A subject that brings a token.
abbrev bearer : Bytes → Subject
bearer token = record {
  type = codes "user";
  id = [];
  properties = some ((codes "jwt", string_value token) ∷ []);
}

abbrev selecting : Struct
selecting = (doelbinding_key, string_value (codes "laadpalen")) ∷ []

abbrev req : EvaluationRequest
req = record {
  subject = some (bearer (codes "t1"));
  action = some (record { name = codes "allow"; properties = none });
  resource = none;
  context = some selecting;
}

abbrev batch : EvaluationsRequest
batch = record {
  subject = none;
  action = none;
  resource = none;
  context = none;
  evaluations = req ∷ req ∷ [];
}

abbrev permitted : EvaluationResponse
permitted = record { decision = true; context = none }

evaluate-PermittedBy_example : PermittedBy engine req
unfolding evaluate eqb
evaluate-PermittedBy_example = evaluate-PermittedBy engine req permits
  where
    permits : (evaluate engine req).0.decision ≡ true
    permits = refl

evaluations-map_example :
    ((evaluations engine batch).0 ≡ map (answer engine batch) batch.evaluations)
    × All (Succeeds engine batch) batch.evaluations
    × (batch.evaluations ≢ [])
unfolding evaluations eqb
evaluations-map_example = evaluations-map engine batch refl

-- The same batch, run.
batch-permitted : (evaluations engine batch).0 ≡ permitted ∷ permitted ∷ []
unfolding evaluations eqb
batch-permitted = refl

policy_path-contained_example :
    (loaded : List Bytes) × (ok packages ≡ ok loaded)
    × (((string_property (some selecting) doelbinding_key ≢ [])
          × (codes "doelbinding.laadpalen"
              ≡ doelbinding_prefix ++ b'.' ∷ string_property (some selecting) doelbinding_key)
          × (contains loaded (codes "doelbinding.laadpalen") ≡ true))
        ⊎ ((string_property (some selecting) doelbinding_key ≡ [])
            × (contains (policy_roots loaded) (codes "doelbinding.laadpalen") ≡ true)
            × (codes "doelbinding.laadpalen" ≢ doelbinding_prefix)
            × ((codes "app" ≡ []) ⊎ (codes "app" ≡ codes "doelbinding.laadpalen"))))
unfolding policy_path eqb
policy_path-contained_example =
    policy_path-contained (codes "app") (ok packages) (some selecting)
      (codes "doelbinding.laadpalen") found
  where
    found :
        policy_path (codes "app") (ok packages) (some selecting)
        ≡ ok (codes "doelbinding.laadpalen")
    found = refl

brings :
    (a : ℕ) (token : Bytes) → string_property (bearer (a ∷ token)).properties (codes "jwt") ≢ []
unfolding string_property eqb
brings a token e = no_token e
  where
    no_token : a ∷ token ≡ [] → ⊥
    no_token e = cc

logged_request-token_example :
    logged_request
      (record {
        policy_path = codes "app";
        identity = identity_context (some (bearer (codes "t1")));
        user = none;
      })
      (record req { subject = some (bearer (codes "t1")) })
    ≡ logged_request
        (record {
          policy_path = codes "app";
          identity = identity_context (some (bearer (codes "t2")));
          user = none;
        })
        (record req { subject = some (bearer (codes "t2")) })
logged_request-token_example =
    logged_request-token (bearer (codes "t1")) (bearer (codes "t2")) req (codes "app") none
      (brings b't' (codes "1")) (brings b't' (codes "2"))

-- Two compilers, of which the second refuses every query.
abbrev compiler : Compiler Bytes
compiler = record { prepare = λ path decisions. ok path; get_policy_packages = ok packages }

abbrev next_compiler : Compiler Bytes
next_compiler = record { prepare = λ path decisions. err bad_query; get_policy_packages = ok [] }

abbrev allow : List Bytes
allow = codes "allow" ∷ []

allow-IsKeyable : IsKeyable (codes "app") allow
allow-IsKeyable = record {
  path_lacks = refl;
  decisions_lack = (refl, tt);
  some_decision = nonempty;
}
  where
    nonempty : allow ≡ [] → ⊥
    nonempty e = cc

abbrev events : List (Event Bytes)
events =
    asks_query (codes "app") allow
    ∷ asks_query (codes "app") allow
    ∷ asks_packages
    ∷ rotates next_compiler
    ∷ asks_query (codes "app") allow
    ∷ []

serve-answer_directly_example :
    serve Bytes events compiler (new_cache Bytes) ≡ answer_directly events compiler
serve-answer_directly_example =
    serve-answer_directly events compiler
      (allow-IsKeyable, (allow-IsKeyable, (tt, (tt, (allow-IsKeyable, tt)))))

-- A directory in which the identity of alice is that of the user alice.
abbrev alice : Object
alice = record no_object { type = user_type; id = codes "alice" }

abbrev of_alice : RelationAnswer
of_alice = record { result = some no_relation; objects = (codes "user:alice", alice) ∷ [] }

abbrev directory : Directory
directory = record {
  get_relation = λ r. ok of_alice;
  check_reason = λ r. none;
  relation_type_not_found = codes "E20036 relation type not found";
  resolve_token = λ token. ok token;
  unresolved_subject = bad_query;
  unresolved_user = λ e. e;
}

abbrev as_alice : IdentityContext
as_alice = record { type = identity_sub; identity = codes "alice@acme.com" }

resolve_identity_context-ResolvesTo_example : ResolvesTo directory as_alice alice
unfolding resolve_identity_context eqb
resolve_identity_context-ResolvesTo_example =
    resolve_identity_context-ResolvesTo directory as_alice alice resolved
  where
    resolved : resolve_identity_context directory (some as_alice) ≡ ok (some alice)
    resolved = refl
