-- ===== src/Sync/Filter.antt =====
-- What internal/eds/pkg/datasync/directory.go uses of the cuckoo filter library, and the keys that it
-- puts into the filter.
use eamerald.Base.{◌≡◌, ℕ, Bool, true, Option, none, some, [], ◌∷◌, ◌++◌, if◌then◌else◌}
use eamerald.Base.Bytes.{Bytes, eqb}
use eamerald.Data.{Object, Relation, no_object, no_relation}

-- Insert tells whether the filter took the key.
pub record Cuckoo : Type 1 where
  pub Filter : Type 0
  pub new_filter : ℕ → Filter
  pub insert_key : Bytes → Filter → Bool × Filter
  pub lookup_key : Bytes → Filter → Bool

-- A filter finds each key that it took, for as long as it takes the keys that follow. It may find
-- other keys too.
pub record CuckooLaws (cuckoo : Cuckoo) : Type 0 where
  pub lookup_key-insert_key :
      (k : Bytes) (f f' : cuckoo.Filter)
      → cuckoo.insert_key k f ≡ (true, f')
      → cuckoo.lookup_key k f' ≡ true
  pub lookup_key-kept :
      (j k : Bytes) (f f' : cuckoo.Filter)
      → cuckoo.insert_key k f ≡ (true, f')
      → cuckoo.lookup_key j f ≡ true
      → cuckoo.lookup_key j f' ≡ true

-- `%s:%s`
unfoldable pub get_object_key : Object → Bytes
get_object_key obj = obj.type ++ b':' ∷ obj.id

-- `%s:%s#%s@%s:%s%s`
unfoldable pub get_relation_key : Relation → Bytes
get_relation_key rel =
    rel.object_type
    ++ b':' ∷ rel.object_id
    ++ b'#' ∷ rel.relation
    ++ b'@' ∷ rel.subject_type
    ++ b':' ∷ rel.subject_id
    ++ (if eqb rel.subject_relation [] then [] else b'#' ∷ rel.subject_relation)

-- The getters of a nil message.
abbrev pub object_or_empty : Option Object → Object
object_or_empty none = no_object
object_or_empty (some o) = o

abbrev pub relation_or_empty : Option Relation → Relation
relation_or_empty none = no_relation
relation_or_empty (some r) = r
