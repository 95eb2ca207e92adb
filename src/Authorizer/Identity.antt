-- ===== src/Authorizer/Identity.antt =====
-- daemon/authorizer/impl/identity.go and daemon/directory/identity.go: from the identity of a request to
-- the user of the directory. The timeout is left out, and so is the type MANUAL, which no AuthZEN subject
-- is mapped to.
pub mod Resolved
use eamerald.Base.{Bool, true, false, Option, none, some, List, [], ◌∷◌, ◌++◌, if◌then◌else◌}
use eamerald.Base.Bytes.{Bytes, codes, eqb, has_prefix}
use eamerald.Base.Exec.{
  Error, Result, ok, err, bind_result, Result-map, is_not_found, invalid_argument, object_not_found,
}
use eamerald.Data.{Object, Relation, RelationIdentifier, no_object, no_identifier}
use eamerald.Authorizer.Request.{IdentityContext, identity_jwt, identity_sub, identity_none}

abbrev pub user_type : Bytes
user_type = codes "user"

abbrev pub identity_type : Bytes
identity_type = codes "identity"

abbrev pub identifier : Bytes
identifier = codes "identifier"

-- dsr.GetRelationResponse, whose result is a pointer.
pub record RelationAnswer : Type 0 where
  pub result : Option Relation
  pub objects : List (Bytes × Object)

-- The reader of the directory, asked for relations with their objects, the reason in the context of its
-- answer to a check, if there is one, and the resolver of tokens.
pub record Directory : Type 0 where
  pub get_relation : RelationIdentifier → Result RelationAnswer
  pub check_reason : RelationIdentifier → Option Bytes
  pub relation_type_not_found : Bytes
  pub resolve_token : Bytes → Result Bytes
  -- aerr's errors
  pub unresolved_subject : Error
  pub unresolved_user : Error → Error

abbrev pub dummy_identity : RelationIdentifier
dummy_identity = record {
  object_type = user_type;
  object_id = codes "topaz-user";
  relation = identifier;
  subject_type = identity_type;
  subject_id = codes "topaz-identity";
  subject_relation = [];
}

abbrev pub starts_reason : Bytes → Option Bytes → Bool
starts_reason prefix none = false
starts_reason prefix (some reason) = has_prefix reason prefix

-- Whether the model has the legacy relation, from the identity to the user.
unfoldable pub is_legacy : Directory → Bool
unfolding has_prefix
is_legacy dir = starts_reason dir.relation_type_not_found (dir.check_reason dummy_identity)

unfoldable pub relation_request : Bool → Bytes → RelationIdentifier
relation_request true identity = record no_identifier {
  object_type = identity_type;
  object_id = identity;
  relation = identifier;
  subject_type = user_type;
}
relation_request false identity = record no_identifier {
  object_type = user_type;
  relation = identifier;
  subject_type = identity_type;
  subject_id = identity;
}

-- The loop over the objects, whose order is any.
unfoldable pub first_user : List (Bytes × Object) → Result Object
unfolding has_prefix
first_user [] = err object_not_found
first_user ((k, v) ∷ objects) =
    let rest = first_user objects in if has_prefix k (user_type ++ codes ":") then ok v else rest

abbrev pub user_of : Relation → Object
user_of rel = record no_object {
  type = user_type;
  id = if eqb rel.object_type user_type then rel.object_id else rel.subject_id;
}

unfoldable pub answered_user : RelationAnswer → Result Object
unfolding first_user
answered_user ans = elim ans.result [
  | none ↦ err object_not_found
  | some rel ↦ elim ans.objects [ [] ↦ ok (user_of rel) | _ ∷ _ ↦ first_user ans.objects ]
]

unfoldable pub resolve_identity_to_user : Result RelationAnswer → Result Object
unfolding answered_user
resolve_identity_to_user (ok ans) = answered_user ans
resolve_identity_to_user (err e) = if is_not_found e then err object_not_found else err e

-- directory.ResolveIdentity
unfoldable pub resolve_identity : Directory → Bytes → Result Object
unfolding is_legacy relation_request resolve_identity_to_user
resolve_identity dir identity =
    resolve_identity_to_user (dir.get_relation (relation_request (is_legacy dir) identity))

-- resolveSubjectFromIdentityContext
unfoldable pub resolve_subject : Directory → IdentityContext → Result Bytes
resolve_subject dir i = if eqb i.identity [] then err dir.unresolved_subject else elim i.type [
  | identity_sub ↦ ok i.identity
  | identity_jwt ↦ dir.resolve_token i.identity
  | identity_none ↦ err dir.unresolved_subject
]

-- An error of the directory is wrapped.
abbrev pub or_unresolved : Directory → Result Object → Result Object
or_unresolved dir (ok user) = ok user
or_unresolved dir (err e) = err (dir.unresolved_user e)

unfoldable pub resolve_user : Directory → IdentityContext → Result Object
unfolding resolve_subject resolve_identity
resolve_user dir i =
    bind_result (resolve_subject dir i) λ subject. or_unresolved dir (resolve_identity dir subject)

-- resolveIdentityContext: the user that is found, if one is looked for.
unfoldable pub resolve_identity_context :
    Directory → Option IdentityContext → Result (Option Object)
unfolding resolve_user
resolve_identity_context dir none = err invalid_argument
resolve_identity_context dir (some i) = elim i.type [
  | identity_none ↦ ok none
  | _ ↦ Result-map some (resolve_user dir i)
]
