-- ===== src/Authorizer/Access/Log.antt =====
-- What of a request to daemon/authorizer/impl/access.go reaches the decision log.
use eamerald.Base.{◌≡◌, ◌≢◌, refl, ap, sym, ◌∙◌, Option, none, some, [], inl, inr, Bool-cases}
use eamerald.Base.Bytes.{Bytes, eqb, eqb_iff}
use eamerald.Data.{Object}
use eamerald.Authorizer.Request.{
  Subject, EvaluationRequest, IdentityContext, string_property, subject_jwt_property,
  identity_context, identity_jwt, adl_subject, logged_request, with_policy_path,
}

token_identity :
    (s : Subject)
    → string_property s.properties subject_jwt_property ≢ []
    → (identity_context (some s)).type ≡ identity_jwt
unfolding identity_context
token_identity s t =
    elim (Bool-cases (eqb (string_property s.properties subject_jwt_property) [])) [
      | inl none_set ↦
          absurd (t ((eqb_iff (string_property s.properties subject_jwt_property) []).0 none_set))
      | inr given ↦ rw given refl
    ]

logged_token :
    (i : IdentityContext) (user : Option Object)
    → i.type ≡ identity_jwt
    → adl_subject i user ≡ adl_subject (record { type = identity_jwt; identity = [] }) user
unfolding adl_subject
logged_token i none h = rw h refl
logged_token i (some u) h = refl

-- What the log records of a request whose subject brings a token depends on neither the token nor
-- anything else of that subject, but only on what it resolved to: two subjects with tokens that
-- resolve to the same user, or to none, are recorded alike.
pub logged_request-token :
    (a b : Subject) (req : EvaluationRequest) (path : Bytes) (user : Option Object)
    → string_property a.properties subject_jwt_property ≢ []
    → string_property b.properties subject_jwt_property ≢ []
    → logged_request
        (record { policy_path = path; identity = identity_context (some a); user = user })
        (record req { subject = some a })
      ≡ logged_request
          (record { policy_path = path; identity = identity_context (some b); user = user })
          (record req { subject = some b })
unfolding logged_request
logged_request-token a b req path user ta tb =
    ap (λ s. record req { subject = some s; context = with_policy_path req.context path })
      (logged_token (identity_context (some a)) user (token_identity a ta)
        ∙ sym (logged_token (identity_context (some b)) user (token_identity b tb)))
