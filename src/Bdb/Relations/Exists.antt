-- ===== src/Bdb/Relations/Exists.antt =====
-- What RelationsExistForObject of internal/eds/pkg/bdb/relation_store.go tells: the seek finds an entry of
-- the index whose key starts with the type and id, and in a store of separable relations this is one of
-- that object or subject.
use eamerald.Base.{
  ◌≡◌, refl, ap, sym, ◌∙◌, true, some, List, [], ◌∷◌, ◌++◌, arith, inl, inr, Bool-cases, List-cases,
}
use mathlib.Core.List.{append_assoc}
use eamerald.Base.Bytes.{Bytes, eqb, eqb_refl, has_prefix}
use eamerald.Base.Order.{before}
use eamerald.Base.Exec.{ok, Result-cases, just_ok}
use eamerald.Data.{
  Relation, RelationIdentifier, Direction, by_object, by_subject, object_only_filter,
}
use eamerald.Bolt.{Entry, Backend, BackendLaws, find, drop_before}
use eamerald.Bdb.Keys.{
  type_id_separator, instance_separator, is_set, object_key, obj_key, sub_key, prefix_of,
  direction_path, direction_filter, direction_key, obj_filter, sub_filter,
}
use eamerald.Bdb.Keys.Injective.{IsSeparable, lacks, split_head, split_tail}
use eamerald.Bdb.Bucket.{set_bucket, set_bucket-ok, relations_obj_path}
use eamerald.Bdb.Scan.{key_prefix_exists}
use eamerald.Bdb.Relations.{relations_exist_for_object}
use eamerald.Bdb.Relations.Index.{IsIndexed, Indexed}

-- The parts of a relation that lead its key in an index.
abbrev pub Leads : Direction → Bytes → Bytes → RelationIdentifier → Type 0
Leads by_object type id r = (r.object_type ≡ type) × (r.object_id ≡ id)
Leads by_subject type id r = (r.subject_type ≡ type) × (r.subject_id ≡ id)

-- The relation is in the index by object.
abbrev pub IsStored : (b : Backend) → b.bolt.Tx → Relation → Type 0
IsStored b tx rel =
    (v : Bytes) × (b.relations.marshal rel ≡ ok v)
    × (b.bolt.get tx relations_obj_path (obj_key rel.ident) ≡ some v)

prefix_rest : (x p : Bytes) → has_prefix x p ≡ true → (rest : Bytes) × (x ≡ p ++ rest)
unfolding has_prefix
prefix_rest x [] h = (x, refl)
prefix_rest [] (c ∷ p) h = absurd (cc h)
prefix_rest (a ∷ x) (c ∷ p) h =
    let (rest, same) = prefix_rest x p (ground arith) in
    let head : a ≡ c = ground arith in (rest, cc)

abbrev key_of : List Entry → Bytes
key_of [] = []
key_of (e ∷ es) = e.0

drop_before-find :
    (k : Bytes) (es : List Entry) (e : Entry) (rest : List Entry)
    → drop_before k es ≡ e ∷ rest
    → (v : Bytes) × (find e.0 es ≡ some v)
unfolding drop_before find
drop_before-find k [] e rest h = absurd (cc h)
drop_before-find k ((j, v) ∷ es) e rest h = elim (Bool-cases (eqb j e.0)) [
  | inl same ↦ (v, rw same refl)
  | inr distinct ↦ elim (Bool-cases (before j k)) [
    | inl below ↦
        let (w, found) = drop_before-find k es e rest (rw below at h) in (w, rw distinct found)
    | inr reached ↦
        let kept : (j, v) ∷ es ≡ e ∷ rest = rw reached at h in
        let same : j ≡ e.0 = ap key_of kept in
        let equal : eqb j e.0 ≡ true = ap (eqb j) (sym same) ∙ eqb_refl j in
        absurd (cc (distinct, equal))
  ]
]

-- A key that starts with a type and an id is the key of that object or subject.
split_parts :
    (t i t' i' x rest : Bytes)
    → lacks type_id_separator t ≡ true
    → lacks instance_separator i ≡ true
    → lacks type_id_separator t' ≡ true
    → lacks instance_separator i' ≡ true
    → t' ++ (type_id_separator ∷ (i' ++ (instance_separator ∷ x)))
      ≡ t ++ (type_id_separator ∷ (i ++ (instance_separator ∷ rest)))
    → (t' ≡ t) × (i' ≡ i)
split_parts t i t' i' x rest ht hi ht' hi' e = (
  split_head type_id_separator t' t _ _ ht' ht e,
  split_head instance_separator i' i _ _ hi' hi (split_tail type_id_separator t' t _ _ ht' ht e),
)

relation-parts :
    (d : Direction) (t i rest : Bytes) (r : RelationIdentifier)
    → IsSeparable r
    → lacks type_id_separator t ≡ true
    → lacks instance_separator i ≡ true
    → direction_key d r ≡ t ++ (type_id_separator ∷ (i ++ (instance_separator ∷ rest)))
    → Leads d t i r
unfolding direction_key obj_key sub_key object_key
relation-parts by_object t i rest r sep ht hi e =
    split_parts t i r.object_type r.object_id _ rest ht hi sep.object_type sep.object_id e
relation-parts by_subject t i rest r sep ht hi e =
    split_parts t i r.subject_type r.subject_id _ rest ht hi sep.subject_type sep.subject_id e

-- The prefix of a seek that names a type and an id only.
object_prefix :
    (d : Direction) (t i : Bytes)
    → is_set t ≡ true
    → is_set i ≡ true
    → direction_filter d (object_only_filter d t i)
      ≡ t ++ (type_id_separator ∷ (i ++ (instance_separator ∷ [])))
unfolding direction_filter object_only_filter obj_filter sub_filter prefix_of is_set
object_prefix by_object t i ht hi = rw (ht, hi) refl
object_prefix by_subject t i ht hi = rw (ht, hi) refl

module _ {b : Backend} (laws : BackendLaws b) where
  Indexed-IsStored :
      (d : Direction) (tx : b.bolt.Tx) (k v : Bytes)
      → b.bolt.get tx (direction_path d) k ≡ some v
      → (x : Indexed b tx d k v) → IsStored b tx x.relation
  unfolding direction_path direction_key
  Indexed-IsStored by_object tx k v there x =
      (v, x.encoded, ap (b.bolt.get tx relations_obj_path) (sym x.keyed) ∙ there)
  Indexed-IsStored by_subject tx k v there x = (v, x.encoded, x.mirrored)

  -- In a store of separable relations, held by both indexes, the test finds an object or a subject with
  -- a separable type and id only if a relation of it is stored.
  pub relations_exist_for_object-IsStored :
      (d : Direction) (t i : Bytes) (tx : b.bolt.Tx)
      → IsIndexed b tx
      → is_set t ≡ true
      → is_set i ≡ true
      → lacks type_id_separator t ≡ true
      → lacks instance_separator i ≡ true
      → relations_exist_for_object b d t i tx ≡ ok true
      → (rel : Relation) × IsStored b tx rel × Leads d t i rel.ident
  unfolding relations_exist_for_object
  relations_exist_for_object-IsStored d t i tx indexed ht hi lt li h =
      elim (Result-cases (set_bucket b.bolt tx (direction_path d))) [
        | inr (x, e) ↦ absurd (cc (rw (key_prefix_exists, e) at h))
        | inl (bucket, e) ↦
            elim (List-cases
              (b.bolt.seek tx bucket (direction_filter d (object_only_filter d t i)))) [
                | inl none_left ↦ absurd (cc (rw (key_prefix_exists, e, none_left) at h))
                | inr (entry, rest, sought) ↦
                    let starts : has_prefix entry.0 (direction_filter d (object_only_filter d t i))
                        ≡ true =
                      just_ok _ _ (rw (key_prefix_exists, e, sought) at h) in
                    let here : bucket ≡ direction_path d =
                      set_bucket-ok b.bolt tx (direction_path d) bucket e in
                    let (v, found) =
                      drop_before-find _ (b.bolt.first tx bucket) entry rest
                        (sym (laws.bolt.seek-first tx bucket _) ∙ sought) in
                    let there : b.bolt.get tx (direction_path d) entry.0 ≡ some v =
                      ap (λ p. b.bolt.get tx p entry.0) (sym here)
                      ∙ laws.bolt.get-first tx bucket entry.0
                      ∙ found in
                    let x = indexed.at d entry.0 v there in
                    let (tail, split) = prefix_rest entry.0 _ starts in
                    (
                      x.relation,
                      Indexed-IsStored d tx entry.0 v there x,
                      relation-parts d t i tail x.relation.ident x.separable lt li (
                          sym x.keyed
                          ∙ split
                          ∙ ap (λ p. p ++ tail) (object_prefix d t i ht hi)
                          ∙ append_assoc t _ tail
                          ∙ ap (λ y. t ++ (type_id_separator ∷ y))
                              (append_assoc i (instance_separator ∷ []) tail)),
                    )
              ]
      ]
