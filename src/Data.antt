-- ===== src/Data.antt =====
-- The messages of the directory (go-directory's `dsc` types, of which the fields are modelled that
-- the program reads or writes) and the filter and direction of internal/eds/pkg/store/store.go.
use eamerald.Base.{ℕ, Bool, false, Option, none, some, List, []}
use eamerald.Base.Bytes.{Bytes}
use eamerald.Base.Int.{ℤ}

pub record Timestamp : Type 0 where
  pub seconds : ℤ
  pub nanos : ℤ

-- A property value is a string, or something that the program does not look into.
pub data Value : Type 0 where
  string_value : Bytes → Value
  other_value : ℕ → Value

-- structpb.Struct, of which the program reads strings
abbrev pub Struct : Type 0
Struct = List (Bytes × Value)

abbrev pub get_string_value : Option Value → Bytes
get_string_value (some (string_value s)) = s
get_string_value _ = []

abbrev pub get_fields : Option Struct → Struct
get_fields none = []
get_fields (some fields) = fields

-- A nil pointer is `none`. A nil map and an empty one behave alike where they are read.
pub record Object : Type 0 where
  pub type : Bytes
  pub id : Bytes
  pub display_name : Bytes
  pub properties : Option Struct
  pub created_at : Option Timestamp
  pub updated_at : Option Timestamp
  pub etag : Bytes

pub record RelationIdentifier : Type 0 where
  pub object_type : Bytes
  pub object_id : Bytes
  pub relation : Bytes
  pub subject_type : Bytes
  pub subject_id : Bytes
  pub subject_relation : Bytes

-- `Relation` has the six getters of `RelationIdentifier` (the interface `relationIdent` of the
-- source), and its own fields.
pub record Relation : Type 0 where
  pub ident : RelationIdentifier
  pub open ident use *
  pub created_at : Option Timestamp
  pub updated_at : Option Timestamp
  pub etag : Bytes

pub data Direction : Type 0 where
  by_object by_subject : Direction

pub record RelationFilter : Type 0 where
  pub ident : RelationIdentifier
  pub open ident use *
  pub has_subject_relation : Bool

-- The zero values, which the getters of a nil message return.
abbrev pub no_object : Object
no_object = record {
  type = [];
  id = [];
  display_name = [];
  properties = none;
  created_at = none;
  updated_at = none;
  etag = [];
}

abbrev pub no_identifier : RelationIdentifier
no_identifier = record {
  object_type = [];
  object_id = [];
  relation = [];
  subject_type = [];
  subject_id = [];
  subject_relation = [];
}

abbrev pub no_relation : Relation
no_relation = record { ident = no_identifier; created_at = none; updated_at = none; etag = [] }

abbrev pub no_filter : RelationFilter
no_filter = record { ident = no_identifier; has_subject_relation = false }

-- store.ObjectOnlyFilter
unfoldable pub object_only_filter : Direction → Bytes → Bytes → RelationFilter
object_only_filter by_subject object_type object_id = record no_filter {
  ident = record no_identifier { subject_type = object_type; subject_id = object_id };
}
object_only_filter by_object object_type object_id = record no_filter {
  ident = record no_identifier { object_type = object_type; object_id = object_id };
}
