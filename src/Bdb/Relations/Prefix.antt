-- ===== src/Bdb/Relations/Prefix.antt =====
-- The scan prefix of internal/eds/pkg/bdb/relation_store.go and the value filter of
-- internal/eds/pkg/ds/relation.go: which prefix the key of an accepted row has.
use eamerald.Base.{
  ℕ, ◌≡◌, refl, ap, true, false, not, [], ◌∷◌, ◌++◌, arith, inl, inr, Bool-cases, if◌then◌else◌,
}
use eamerald.Base.Bytes.{Bytes, eqb, eqb-eq, has_prefix, has_prefix-append}
use eamerald.Data.{RelationIdentifier, Direction, by_object, by_subject}
use eamerald.Ds.Relation.{SafeRelation, value_filter, as_filter, differs}
use eamerald.Bdb.Keys.{
  type_id_separator, instance_separator, is_set, prefix_of, object_key, subject_relation_part,
  direction_key, direction_filter,
}

-- A common part in front does not matter.
prefix_under : (a x p : Bytes) → has_prefix (a ++ x) (a ++ p) ≡ has_prefix x p
unfolding has_prefix
prefix_under [] x p = refl
prefix_under (c ∷ a) x p = ground (arith, prefix_under a x p)

pub has_prefix_nil : (x : Bytes) → has_prefix x [] ≡ true
unfolding has_prefix
has_prefix_nil [] = refl
has_prefix_nil (c ∷ x) = refl

-- A field of the query that counts as set is not empty, so a row that is accepted equals it.
abbrev Agrees : Bytes → Bytes → Type 0
Agrees fv item = is_set fv ≡ true → item ≡ fv

set-Agrees : (fv item : Bytes) → differs fv item ≡ false → Agrees fv item
unfolding is_set eqb
set-Agrees [] item d s = ground arith
set-Agrees (c ∷ fv) item d s = elim (Bool-cases (eqb item (c ∷ fv))) [
  | inl same ↦ eqb-eq item (c ∷ fv) same
  | inr distinct ↦ cc (ap not distinct)
]

cons_prefix : (c : ℕ) (x p : Bytes) → has_prefix x p ≡ true → has_prefix (c ∷ x) (c ∷ p) ≡ true
unfolding has_prefix
cons_prefix c x p h = ground arith

-- One more part in front of a prefix.
part_prefix :
    (c : ℕ) (fv item x p : Bytes)
    → Agrees fv item
    → has_prefix x p ≡ true
    → has_prefix (item ++ (c ∷ x)) (if not (is_set fv) then [] else fv ++ (c ∷ p)) ≡ true
part_prefix c fv item x p agrees h = elim (Bool-cases (is_set fv)) [
  | inl set ↦ rw (set, agrees set, prefix_under fv (c ∷ x) (c ∷ p)) (cons_prefix c x p h)
  | inr unset ↦ rw (unset, has_prefix_nil (item ++ (c ∷ x)))
]

last_prefix :
    (fv item x : Bytes)
    → Agrees fv item
    → has_prefix (item ++ x) (if not (is_set fv) then [] else fv) ≡ true
last_prefix fv item x agrees = elim (Bool-cases (is_set fv)) [
  | inl set ↦ rw (set, agrees set, has_prefix-append fv x)
  | inr unset ↦ rw (unset, has_prefix_nil (item ++ x))
]

-- The scan prefix of a query is a prefix of the key of every row that agrees with it.
prefix_of-key :
    (t i r u j t' i' r' u' j' tail : Bytes)
    → Agrees t t'
    → Agrees i i'
    → Agrees r r'
    → Agrees u u'
    → Agrees j j'
    → has_prefix
        (object_key t'
          (i' ++ (instance_separator ∷ (r' ++ (instance_separator ∷ object_key u' (j' ++ tail))))))
        (prefix_of t i r u j)
      ≡ true
unfolding prefix_of object_key
prefix_of-key t i r u j t' i' r' u' j' tail at ai ar au aj =
    let ids = last_prefix j j' tail aj in
    let types = part_prefix type_id_separator u u' _ _ au ids in
    let relations = part_prefix instance_separator r r' _ _ ar types in
    elim (Bool-cases (is_set t)) [
      | inl st ↦ elim (Bool-cases (is_set i)) [
        | inl si ↦
            rw (st, si, at st, ai si, prefix_under t)
              (cons_prefix type_id_separator _ _
                (rw si at (part_prefix instance_separator i i _ _ (λ _. refl) relations)))
        | inr si ↦ rw (st, si, has_prefix_nil)
      ]
      | inr st ↦ rw (st, has_prefix_nil)
    ]

agree :
    (i : SafeRelation) (item : RelationIdentifier)
    → value_filter i item ≡ true
    → (differs i.object_type item.object_type ≡ false)
      × (differs i.object_id item.object_id ≡ false)
      × (differs i.relation item.relation ≡ false)
      × (differs i.subject_type item.subject_type ≡ false)
      × (differs i.subject_id item.subject_id ≡ false)
unfolding value_filter
agree i item h = ground arith

accepted_fields :
    (i : SafeRelation) (item : RelationIdentifier)
    → value_filter i item ≡ true
    → Agrees i.object_type item.object_type
      × Agrees i.object_id item.object_id
      × Agrees i.relation item.relation
      × Agrees i.subject_type item.subject_type
      × Agrees i.subject_id item.subject_id
accepted_fields i item h =
    let (a, b, c, d, e) = agree i item h in
    (
      set-Agrees i.object_type item.object_type a,
      set-Agrees i.object_id item.object_id b,
      set-Agrees i.relation item.relation c,
      set-Agrees i.subject_type item.subject_type d,
      set-Agrees i.subject_id item.subject_id e,
    )

-- In either index, the key of a row that the value filter of a query accepts has the scan prefix of
-- the query.
pub direction_filter-key :
    (d : Direction) (i : SafeRelation) (item : RelationIdentifier)
    → value_filter i item ≡ true
    → has_prefix (direction_key d item) (direction_filter d (as_filter i)) ≡ true
unfolding direction_key direction_filter as_filter
direction_filter-key by_object i item h =
    let (a, b, c, d, e) = accepted_fields i item h in
    prefix_of-key _ _ _ _ _ _ _ _ _ _ (subject_relation_part item.subject_relation) a b c d e
direction_filter-key by_subject i item h =
    let (a, b, c, d, e) = accepted_fields i item h in
    prefix_of-key _ _ _ _ _ _ _ _ _ _ (subject_relation_part item.subject_relation) d e c a b
