-- ===== src/Ds/Relation.antt =====
-- internal/eds/pkg/ds/relation.go: which index a relation query scans, and which rows it accepts.
use eamerald.Base.{Bool, true, false, not, ◌&&◌, [], if◌then◌else◌}
use eamerald.Base.Bytes.{Bytes, eqb}
use eamerald.Base.Exec.{Result, ok, err, no_complete_object_identifier}
use eamerald.Data.{RelationIdentifier, RelationFilter, Direction, by_object, by_subject}

-- The query: azm's SafeRelation, a partial identifier with a flag that tells an empty subject
-- relation that is asked for from one that is not.
pub record SafeRelation : Type 0 where
  pub ident : RelationIdentifier
  pub open ident use *
  pub has_subject_relation : Bool

-- ds.RelationIdentifier
unfoldable pub relation_identifier : RelationIdentifier → SafeRelation
relation_identifier i = record { ident = i; has_subject_relation = not (eqb i.subject_relation []) }

-- A field of the query that is not empty, and that the row does not equal.
abbrev pub differs : Bytes → Bytes → Bool
differs fv item = not (eqb fv []) && not (eqb item fv)

unfoldable pub value_filter : SafeRelation → RelationIdentifier → Bool
value_filter i item =
    if differs i.object_type item.object_type
    then false
    else if differs i.object_id item.object_id
    then false
    else if differs i.relation item.relation
    then false
    else if differs i.subject_type item.subject_type
    then false
    else if differs i.subject_id item.subject_id
    then false
    else if i.has_subject_relation && not (eqb item.subject_relation i.subject_relation)
    then false
    else true

unfoldable pub as_filter : SafeRelation → RelationFilter
as_filter i = record { ident = i.ident; has_subject_relation = i.has_subject_relation }

-- `is_complete` is azm's test that an object identifier names a type and an id.
module _ (is_complete : Bytes → Bytes → Bool) where
  unfoldable pub direction : SafeRelation → Direction × Bool
  direction i =
      if is_complete i.object_type i.object_id
      then (by_object, true)
      else if is_complete i.subject_type i.subject_id
      then (by_subject, true)
      else (by_object, false)

  unfoldable pub path_and_filter : SafeRelation → Result (Direction × RelationFilter)
  unfolding direction as_filter
  path_and_filter i =
      if (direction i).1
      then ok ((direction i).0, as_filter i)
      else err no_complete_object_identifier

  -- Filter and RelationValueFilter, for rows of either message type.
  unfoldable pub filter : SafeRelation → Direction × RelationFilter × (RelationIdentifier → Bool)
  unfolding direction as_filter value_filter
  filter i = ((direction i).0, as_filter i, value_filter i)
