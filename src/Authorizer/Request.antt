-- ===== src/Authorizer/Request.antt =====
-- The messages of the AuthZEN Access API as daemon/authorizer/impl/access.go reads and writes them,
-- and the functions on them: a nil pointer is `none`, a map is an association list.
use eamerald.Base.{Option, none, some, List, [], ◌∷◌, ◌++◌, map, if◌then◌else◌}
use eamerald.Base.Bytes.{Bytes, eqb, codes}
use eamerald.Base.Dict.{lookup, insert}
use eamerald.Data.{Object, Struct, string_value, get_fields, get_string_value}

unfoldable pub string_property : Option Struct → Bytes → Bytes
unfolding lookup
string_property properties key = get_string_value (lookup (get_fields properties) key)

pub record Subject : Type 0 where
  pub type : Bytes
  pub id : Bytes
  pub properties : Option Struct

pub record Action : Type 0 where
  pub name : Bytes
  pub properties : Option Struct

pub record Resource : Type 0 where
  pub type : Bytes
  pub id : Bytes
  pub properties : Option Struct

pub record EvaluationRequest : Type 0 where
  pub subject : Option Subject
  pub action : Option Action
  pub resource : Option Resource
  pub context : Option Struct

pub record EvaluationsRequest : Type 0 where
  pub subject : Option Subject
  pub action : Option Action
  pub resource : Option Resource
  pub context : Option Struct
  pub evaluations : List EvaluationRequest

-- cmp.Or on pointers
abbrev pub first_set : {A : Type 0} → Option A → Option A → Option A
first_set (some a) o = some a
first_set none o = o

unfoldable pub defaulted : EvaluationsRequest → EvaluationRequest → EvaluationRequest
defaulted batch req = record {
  subject = first_set req.subject batch.subject;
  action = first_set req.action batch.action;
  resource = first_set req.resource batch.resource;
  context = first_set req.context batch.context;
}

-- The zero values that the getters of a nil message return.
abbrev pub subject_of : Option Subject → Subject
subject_of none = record { type = []; id = []; properties = none }
subject_of (some s) = s

abbrev pub action_of : Option Action → Action
action_of none = record { name = []; properties = none }
action_of (some a) = a

abbrev pub resource_of : Option Resource → Resource
resource_of none = record { type = []; id = []; properties = none }
resource_of (some r) = r

-- api.IdentityContext with the types that an AuthZEN subject is mapped to
pub data IdentityType : Type 0 where
  identity_jwt identity_sub identity_none : IdentityType

-- IdentityType.String()
abbrev pub type_name : IdentityType → Bytes
type_name identity_jwt = codes "IDENTITY_TYPE_JWT"
type_name identity_sub = codes "IDENTITY_TYPE_SUB"
type_name identity_none = codes "IDENTITY_TYPE_NONE"

pub record IdentityContext : Type 0 where
  pub type : IdentityType
  pub identity : Bytes

abbrev pub subject_jwt_property : Bytes
subject_jwt_property = codes "jwt"

unfoldable pub identity_context : Option Subject → IdentityContext
unfolding string_property
identity_context subject =
    let s = subject_of subject in
    let jwt = string_property s.properties subject_jwt_property in
    if eqb jwt []
    then if eqb s.id []
      then record { type = identity_none; identity = [] }
      else record { type = identity_sub; identity = s.id }
    else record { type = identity_jwt; identity = jwt }

-- adlSubject of daemon/authorizer/impl/adl.go
unfoldable pub adl_subject : IdentityContext → Option Object → Subject
adl_subject identity (some user) = record { type = user.type; id = user.id; properties = none }
adl_subject identity none = record {
  type = type_name identity.type;
  id = logged_id identity.type;
  properties = none;
}
  where
    logged_id : IdentityType → Bytes
    logged_id identity_jwt = []
    logged_id _ = identity.identity

unfoldable pub scrub_subject : Option Subject → Option Subject
scrub_subject none = none
scrub_subject (some s) = some (record { type = s.type; id = s.id; properties = none })

abbrev pub policy_path_key : Bytes
policy_path_key = codes "policy_path"

unfoldable pub with_policy_path : Option Struct → Bytes → Option Struct
unfolding insert
with_policy_path base path =
    if eqb path []
    then base
    else some (insert (get_fields base) policy_path_key (string_value path))

-- One round of the loop of flatten: an empty value is skipped, and so is a name that is taken.
unfoldable pub add_field : Struct → Bytes × Bytes → Struct
unfolding lookup
add_field out (name, value) =
    if eqb value []
    then out
    else elim (lookup out name) [ some v ↦ out | none ↦ out ++ (name, string_value value) ∷ [] ]

unfoldable pub add_fields : Struct → List (Bytes × Bytes) → Struct
unfolding add_field
add_fields out [] = out
add_fields out (f ∷ fields) = add_fields (add_field out f) fields

unfoldable pub flatten : Option Struct → List (Bytes × Bytes) → Struct
unfolding add_fields
flatten properties fields = add_fields (get_fields properties) fields

-- What the decision log needs of an evaluation but the request does not hold.
pub record EvalMeta : Type 0 where
  pub policy_path : Bytes
  pub identity : IdentityContext
  pub user : Option Object

-- evalMeta.request
unfoldable pub logged_request : EvalMeta → EvaluationRequest → EvaluationRequest
unfolding adl_subject with_policy_path
logged_request m req = record {
  subject = some (adl_subject m.identity m.user);
  action = req.action;
  resource = req.resource;
  context = with_policy_path req.context m.policy_path;
}

unfoldable pub scrubbed : EvaluationRequest → EvaluationRequest
unfolding scrub_subject
scrubbed req = record req { subject = scrub_subject req.subject }

-- evalMeta.requests
unfoldable pub logged_requests : EvalMeta → EvaluationsRequest → EvaluationsRequest
unfolding adl_subject with_policy_path scrubbed
logged_requests m req = record {
  subject = some (adl_subject m.identity m.user);
  action = req.action;
  resource = req.resource;
  context = with_policy_path req.context m.policy_path;
  evaluations = map scrubbed req.evaluations;
}
