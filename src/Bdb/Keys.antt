-- ===== src/Bdb/Keys.antt =====
-- internal/eds/pkg/bdb/keys.go and the keys and scan prefixes of relation_store.go.
pub mod Injective
use eamerald.Base.{
  ℕ, ◌≡◌, Bool, true, false, not, ◌&&◌, ◌||◌, List, [], ◌∷◌, ◌++◌, ltb, ◌==◌, if◌then◌else◌,
}
use eamerald.Base.Bytes.{Bytes}
use eamerald.Data.{Direction, by_object, by_subject, RelationIdentifier, RelationFilter}
use eamerald.Bolt.{BucketPath}
use eamerald.Bdb.Bucket.{relations_obj_path, relations_sub_path}

abbrev pub type_id_separator : ℕ
type_id_separator = b':'

abbrev pub instance_separator : ℕ
instance_separator = b'|'

-- The white space that `strings.TrimSpace` takes away, in UTF-8: one, two or three bytes.
unfoldable pub space1 : ℕ → Bool
space1 a = a == 0x20 || (ltb 0x08 a && ltb a 0x0e)

unfoldable pub space2 : ℕ → ℕ → Bool
space2 a b = a == 0xc2 && (b == 0x85 || b == 0xa0)

unfoldable pub space3 : ℕ → ℕ → ℕ → Bool
space3 a b c =
    (a == 0xe1 && b == 0x9a && c == 0x80)
    || (a == 0xe2 && b == 0x80 && (ltb c 0x8b || c == 0xa8 || c == 0xa9 || c == 0xaf) && ltb 0x7f c)
    || (a == 0xe2 && b == 0x81 && c == 0x9f)
    || (a == 0xe3 && b == 0x80 && c == 0x80)

-- `strings.TrimSpace(s) != ""`: some character is no white space.
unfoldable pub is_set : Bytes → Bool
unfolding space1 space2 space3
is_set [] = false
is_set (a ∷ []) = not (space1 a)
is_set (a ∷ b ∷ []) = elim (space1 a) [ true ↦ is_set (b ∷ []) | false ↦ not (space2 a b) ]
is_set (a ∷ b ∷ c ∷ s) = elim (space1 a) [
  | true ↦ is_set (b ∷ c ∷ s)
  | false ↦ elim (space2 a b) [
    | true ↦ is_set (c ∷ s)
    | false ↦ elim (space3 a b c) [ true ↦ is_set s | false ↦ true ]
  ]
]

unfoldable pub object_key : Bytes → Bytes → Bytes
object_key object_type object_id = object_type ++ (type_id_separator ∷ object_id)

-- The optional last part of a relation's key.
unfoldable pub subject_relation_part : Bytes → Bytes
subject_relation_part [] = []
subject_relation_part (c ∷ sr) = instance_separator ∷ c ∷ sr

-- writeObjKey: obj_type:obj_id|relation|sub_type:sub_id(|sub_relation)
unfoldable pub obj_key : RelationIdentifier → Bytes
unfolding object_key subject_relation_part
obj_key r = object_key r.object_type (
    r.object_id
    ++ (instance_separator
        ∷ (r.relation
            ++ (instance_separator
                ∷ object_key r.subject_type
                    (r.subject_id ++ subject_relation_part r.subject_relation)))))

-- writeSubKey: sub_type:sub_id|relation|obj_type:obj_id(|sub_relation)
unfoldable pub sub_key : RelationIdentifier → Bytes
unfolding object_key subject_relation_part
sub_key r = object_key r.subject_type (
    r.subject_id
    ++ (instance_separator
        ∷ (r.relation
            ++ (instance_separator
                ∷ object_key r.object_type
                    (r.object_id ++ subject_relation_part r.subject_relation)))))

-- The common shape of writeObjFilter and writeSubFilter: the leading type and id, the relation, and
-- the type and id of the other side, up to the first part that is not set.
unfoldable pub prefix_of : Bytes → Bytes → Bytes → Bytes → Bytes → Bytes
unfolding is_set
prefix_of lead_type lead_id relation other_type other_id =
    if not (is_set lead_type) || not (is_set lead_id)
    then []
    else lead_type
      ++ (type_id_separator
          ∷ (lead_id
              ++ (instance_separator
                  ∷ (if not (is_set relation)
                      then []
                      else relation
                        ++ (instance_separator
                            ∷ (if not (is_set other_type)
                                then []
                                else other_type
                                  ++ (type_id_separator
                                      ∷ (if not (is_set other_id) then [] else other_id))))))))

unfoldable pub obj_filter : RelationFilter → Bytes
unfolding prefix_of
obj_filter f = prefix_of f.object_type f.object_id f.relation f.subject_type f.subject_id

unfoldable pub sub_filter : RelationFilter → Bytes
unfolding prefix_of
sub_filter f = prefix_of f.subject_type f.subject_id f.relation f.object_type f.object_id

unfoldable pub direction_path : Direction → BucketPath
direction_path by_subject = relations_sub_path
direction_path by_object = relations_obj_path

-- The prefix that ScanRelations and its siblings write for a direction.
unfoldable pub direction_filter : Direction → RelationFilter → Bytes
unfolding obj_filter sub_filter
direction_filter by_subject f = sub_filter f
direction_filter by_object f = obj_filter f

-- The key of a relation in the index of a direction.
unfoldable pub direction_key : Direction → RelationIdentifier → Bytes
unfolding obj_key sub_key
direction_key by_subject r = sub_key r
direction_key by_object r = obj_key r
