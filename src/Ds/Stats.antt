-- ===== src/Ds/Stats.antt =====
-- internal/eds/pkg/ds/stats.go: how many objects and relations there are, by type. A count is an int32,
-- which is here its bits, as a number.
pub mod Counts
use eamerald.Base.{ℕ, ◌+◌, ◌%◌, ◌^◌, Option, none, some, List, [], ◌∷◌, ◌++◌, if◌then◌else◌}
use eamerald.Base.Bytes.{Bytes, codes, eqb}
use eamerald.Base.Dict.{lookup, insert}
use eamerald.Base.Exec.{Result, bind_result, Result-map}
use eamerald.Data.{Object, Relation, by_object, no_filter}
use eamerald.Store.Page.{values}
use eamerald.Store.Tx.{Tx}

pub record SubjectType : Type 0 where
  pub count : ℕ
  pub subject_relations : List (Bytes × ℕ)

pub record RelationStats : Type 0 where
  pub count : ℕ
  pub subject_types : List (Bytes × SubjectType)

pub record ObjectType : Type 0 where
  pub obj_count : ℕ
  pub count : ℕ
  pub relations : List (Bytes × RelationStats)

abbrev pub Stats : Type 0
Stats = List (Bytes × ObjectType)

abbrev pub new_subject_type : SubjectType
new_subject_type = record { count = 0; subject_relations = [] }

abbrev pub new_relation_stats : RelationStats
new_relation_stats = record { count = 0; subject_types = [] }

abbrev pub new_object_type : ObjectType
new_object_type = record { obj_count = 0; count = 0; relations = [] }

-- The entry of a key, or a new one.
abbrev pub entry_or {ℓ} : {V : Type ℓ} → Option V → V → V
entry_or none new = new
entry_or (some v) new = v

-- atomic.AddInt32 of 1
abbrev pub increment : ℕ → ℕ
increment n = (n + 1) % 2 ^ 32

unfoldable pub inc_object : Object → Stats → Stats
unfolding lookup insert
inc_object obj stats =
    let ot = entry_or (lookup stats obj.type) new_object_type in
    insert stats obj.type (record ot { obj_count = increment ot.obj_count })

-- The subject type of a wildcard is counted apart.
abbrev pub subject_type_key : Relation → Bytes
subject_type_key rel =
    if eqb rel.subject_id (codes "*") then rel.subject_type ++ codes ":*" else rel.subject_type

unfoldable pub inc_subject_relation : Bytes → SubjectType → SubjectType
unfolding lookup insert
inc_subject_relation sub_rel st = if eqb sub_rel [] then st else record st {
  subject_relations =
      insert st.subject_relations sub_rel
        (increment (entry_or (lookup st.subject_relations sub_rel) 0));
}

unfoldable pub inc_subject_type : Relation → RelationStats → RelationStats
unfolding lookup insert inc_subject_relation
inc_subject_type rel re =
    let st = entry_or (lookup re.subject_types (subject_type_key rel)) new_subject_type in
    record re {
      subject_types =
          insert re.subject_types (subject_type_key rel)
            (inc_subject_relation rel.subject_relation (record st { count = increment st.count }));
    }

unfoldable pub inc_relation_stats : Relation → ObjectType → ObjectType
unfolding lookup insert inc_subject_type
inc_relation_stats rel ot =
    let re = entry_or (lookup ot.relations rel.relation) new_relation_stats in
    record ot {
      relations =
          insert ot.relations rel.relation
            (inc_subject_type rel (record re { count = increment re.count }));
    }

unfoldable pub inc_relation : Relation → Stats → Stats
unfolding lookup insert inc_relation_stats
inc_relation rel stats =
    let ot = entry_or (lookup stats rel.object_type) new_object_type in
    insert stats rel.object_type (inc_relation_stats rel (record ot { count = increment ot.count }))

-- The loop over the values of an iterator.
unfoldable pub inc_all {ℓ} : {A : Type ℓ} → (A → Stats → Stats) → List A → Stats → Stats
inc_all inc [] stats = stats
inc_all inc (a ∷ items) stats = inc_all inc items (inc a stats)

module _ (tx : Tx) where
  unfoldable pub count_objects : Stats → tx.State → Result Stats
  unfolding inc_all inc_object
  count_objects stats s =
      Result-map (λ rows. inc_all inc_object (values rows) stats) (tx.scan_objects [] [] s)

  unfoldable pub count_relations : Stats → tx.State → Result Stats
  unfolding inc_all inc_relation
  count_relations stats s =
      Result-map (λ rows. inc_all inc_relation (values rows) stats)
        (tx.scan_relations by_object no_filter [] s)

  unfoldable pub calculate_stats : tx.State → Result Stats
  unfolding count_objects count_relations
  calculate_stats s = bind_result (count_objects [] s) λ stats. count_relations stats s
