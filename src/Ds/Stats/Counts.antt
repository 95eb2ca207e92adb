-- ===== src/Ds/Stats/Counts.antt =====
-- What the statistics of a store count.
use eamerald.Base.{
  ℕ, ◌+◌, ◌%◌, ◌^◌, ◌&&◌, ◌≡◌, ◌∙◌, refl, ap, inl, inr, Bool, true, false, Bool-cases, List, [],
  ◌∷◌, arith, if◌then◌else◌, length, keep,
}
use eamerald.Base.Bytes.{Bytes, eqb, eqb-eq}
use eamerald.Base.Dict.{lookup, insert, lookup-insert}
use eamerald.Base.Exec.{ok}
use eamerald.Data.{Object, Relation, by_object, no_filter}
use eamerald.Store.Page.{values}
use eamerald.Store.Tx.{Tx}
use eamerald.Ds.Stats.{
  Stats, ObjectType, RelationStats, new_object_type, new_relation_stats, entry_or, increment,
  inc_object, inc_relation, inc_relation_stats, inc_subject_type, inc_all, count_objects,
  count_relations, calculate_stats,
}

-- The numbers of objects of a type, of relations of objects of a type, and of those of one name.
unfoldable pub objects_of : Bytes → Stats → ℕ
objects_of type stats = (entry_or (lookup stats type) new_object_type).obj_count

unfoldable pub relations_of : Bytes → Stats → ℕ
relations_of type stats = (entry_or (lookup stats type) new_object_type).count

unfoldable pub relations_named : Bytes → Bytes → Stats → ℕ
relations_named type name stats =
    (entry_or (lookup (entry_or (lookup stats type) new_object_type).relations name)
      new_relation_stats).count

if-same {ℓ} : {A : Type ℓ} (b : Bool) (a : A) → (if b then a else a) ≡ a
if-same true a = refl
if-same false a = refl

-- An entry that is read, changed and written back.
entry-updated {ℓ κ} :
    {V : Type ℓ} {B : Type κ} (view : V → B) (change : V → V) (new : V) (fields : List (Bytes × V))
    (key other : Bytes)
    → view (
        entry_or (lookup (insert fields key (change (entry_or (lookup fields key) new))) other) new)
      ≡ (if eqb key other
          then view (change (entry_or (lookup fields other) new))
          else view (entry_or (lookup fields other) new))
entry-updated view change new fields key other = elim (Bool-cases (eqb key other)) [
  | inl same ↦
      rw (same, lookup-insert fields key (change (entry_or (lookup fields key) new)) other, same)
        (ap (λ k. view (change (entry_or (lookup fields k) new))) (eqb-eq key other same))
  | inr differs ↦
      rw
        (
          differs,
          lookup-insert fields key (change (entry_or (lookup fields key) new)) other,
          differs,
        )
        refl
]

inc_all-counts :
    {A : Type 0} (inc : A → Stats → Stats) (view : Stats → ℕ) (hit : A → Bool)
    → ((a : A) (stats : Stats)
        → view (inc a stats) ≡ (if hit a then increment (view stats) else view stats))
    → (items : List A) (stats : Stats) (n : ℕ) → view stats ≡ n % 2 ^ 32
    → view (inc_all inc items stats) ≡ (n + length (keep hit items)) % 2 ^ 32
unfolding inc_all
inc_all-counts inc view hit step [] stats n h = omega arith
inc_all-counts inc view hit step (a ∷ items) stats n h = elim (Bool-cases (hit a)) [
  | inl counted ↦
      let next : view (inc a stats) ≡ increment (view stats) = rw counted at (step a stats) in
      let grown : view (inc a stats) ≡ (n + 1) % 2 ^ 32 = omega arith in
      rw counted (
        inc_all-counts inc view hit step items (inc a stats) (n + 1) grown
        ∙ ap (λ k. k % 2 ^ 32) (omega arith))
  | inr other ↦
      rw other
        (inc_all-counts inc view hit step items (inc a stats) n (rw other at (step a stats) ∙ h))
]

inc_all-counts_new :
    {A : Type 0} (inc : A → Stats → Stats) (view : Stats → ℕ) (hit : A → Bool)
    → ((a : A) (stats : Stats)
        → view (inc a stats) ≡ (if hit a then increment (view stats) else view stats))
    → (items : List A) (stats : Stats) → view stats ≡ 0
    → view (inc_all inc items stats) ≡ length (keep hit items) % 2 ^ 32
inc_all-counts_new inc view hit step items stats h =
    inc_all-counts inc view hit step items stats 0 (omega arith)
    ∙ ap (λ k. k % 2 ^ 32) (omega arith)

inc_object-objects_of :
    (type : Bytes) (o : Object) (stats : Stats)
    → objects_of type (inc_object o stats)
      ≡ (if eqb o.type type then increment (objects_of type stats) else objects_of type stats)
unfolding inc_object objects_of
inc_object-objects_of type o stats =
    entry-updated (λ (ot : ObjectType). ot.obj_count)
      (λ ot. record ot { obj_count = increment ot.obj_count }) new_object_type stats o.type type

inc_relation-objects_of :
    (type : Bytes) (rel : Relation) (stats : Stats)
    → objects_of type (inc_relation rel stats) ≡ objects_of type stats
unfolding inc_relation objects_of inc_relation_stats
inc_relation-objects_of type rel stats =
    entry-updated (λ (ot : ObjectType). ot.obj_count)
      (λ ot. inc_relation_stats rel (record ot { count = increment ot.count })) new_object_type
      stats rel.object_type type
    ∙ if-same (eqb rel.object_type type) (objects_of type stats)

inc_relation-relations_of :
    (type : Bytes) (rel : Relation) (stats : Stats)
    → relations_of type (inc_relation rel stats) ≡ (
        if eqb rel.object_type type
        then increment (relations_of type stats)
        else relations_of type stats)
unfolding inc_relation relations_of inc_relation_stats
inc_relation-relations_of type rel stats =
    entry-updated (λ (ot : ObjectType). ot.count)
      (λ ot. inc_relation_stats rel (record ot { count = increment ot.count })) new_object_type
      stats rel.object_type type

inc_relation-relations_named :
    (type name : Bytes) (rel : Relation) (stats : Stats)
    → relations_named type name (inc_relation rel stats) ≡ (
        if eqb rel.object_type type && eqb rel.relation name
        then increment (relations_named type name stats)
        else relations_named type name stats)
unfolding inc_relation relations_named inc_relation_stats inc_subject_type
inc_relation-relations_named type name rel stats =
    let counted =
      entry-updated
        (λ (ot : ObjectType). (entry_or (lookup ot.relations name) new_relation_stats).count)
        (λ ot. inc_relation_stats rel (record ot { count = increment ot.count })) new_object_type
        stats rel.object_type type in
    let named =
      entry-updated (λ (re : RelationStats). re.count)
        (λ re. inc_subject_type rel (record re { count = increment re.count })) new_relation_stats
        (entry_or (lookup stats type) new_object_type).relations rel.relation name in
    elim (Bool-cases (eqb rel.object_type type)) [
      | inl same ↦ rw same (rw same at counted ∙ named)
      | inr differs ↦ rw differs (rw differs at counted)
    ]

inc_object-kept {κ} :
    {B : Type κ} (view : ObjectType → B)
    → ((ot : ObjectType) (n : ℕ) → view (record ot { obj_count = n }) ≡ view ot)
    → (type : Bytes) (o : Object) (stats : Stats)
    → view (entry_or (lookup (inc_object o stats) type) new_object_type)
      ≡ view (entry_or (lookup stats type) new_object_type)
unfolding inc_object
inc_object-kept view blind type o stats =
    entry-updated view (λ ot. record ot { obj_count = increment ot.obj_count }) new_object_type
      stats o.type type
    ∙ ap (λ v. if eqb o.type type then v else view (entry_or (lookup stats type) new_object_type))
        (blind (entry_or (lookup stats type) new_object_type) _)
    ∙ if-same (eqb o.type type) (view (entry_or (lookup stats type) new_object_type))

inc_all-kept {κ} :
    {A : Type 0} {B : Type κ} (inc : A → Stats → Stats) (view : Stats → B)
    → ((a : A) (stats : Stats) → view (inc a stats) ≡ view stats)
    → (items : List A) (stats : Stats) → view (inc_all inc items stats) ≡ view stats
unfolding inc_all
inc_all-kept inc view blind [] stats = refl
inc_all-kept inc view blind (a ∷ items) stats =
    inc_all-kept inc view blind items (inc a stats) ∙ blind a stats

module _ (tx : Tx) where
  -- If the scans of objects and of relations succeed, so do the statistics. They count for each
  -- type the objects of the type and the relations of its objects, and for each relation name the
  -- relations of that name among them, all as an int32.
  pub calculate_stats-counts :
      (type name : Bytes) (s : tx.State) (objects : List (Object × Bytes))
      (relations : List (Relation × Bytes))
      → tx.scan_objects [] [] s ≡ ok objects
      → tx.scan_relations by_object no_filter [] s ≡ ok relations
      → (stats : Stats) × (calculate_stats tx s ≡ ok stats)
        × (objects_of type stats
            ≡ length (keep (λ (o : Object). eqb o.type type) (values objects)) % 2 ^ 32)
        × (relations_of type stats
            ≡ length (keep (λ (r : Relation). eqb r.object_type type) (values relations)) % 2 ^ 32)
        × (relations_named type name stats
            ≡ length (
                keep
                  (λ (r : Relation). eqb r.object_type type && eqb r.relation name)
                  (values relations))
              % 2 ^ 32)
  unfolding calculate_stats count_objects count_relations objects_of relations_of relations_named
  calculate_stats-counts type name s objects relations scanned related =
      let counted = inc_all inc_object (values objects) [] in
      let unrelated : relations_of type counted ≡ 0 =
        inc_all-kept inc_object (relations_of type)
          (λ o stats. inc_object-kept (λ ot. ot.count) (λ ot n. refl) type o stats) (values objects)
          [] in
      let unnamed : relations_named type name counted ≡ 0 =
        inc_all-kept inc_object (relations_named type name)
          (λ o stats.
            inc_object-kept (λ ot. (entry_or (lookup ot.relations name) new_relation_stats).count)
              (λ ot n. refl) type o stats)
          (values objects) [] in
      (
        inc_all inc_relation (values relations) counted,
        rw (scanned, related) refl,
        inc_all-kept inc_relation (objects_of type) (inc_relation-objects_of type)
              (values relations) counted
            ∙ inc_all-counts_new inc_object (objects_of type) (λ o. eqb o.type type)
                (inc_object-objects_of type) (values objects) [] refl,
        inc_all-counts_new inc_relation (relations_of type) (λ r. eqb r.object_type type)
            (inc_relation-relations_of type) (values relations) counted unrelated,
        inc_all-counts_new inc_relation (relations_named type name)
            (λ r. eqb r.object_type type && eqb r.relation name)
            (inc_relation-relations_named type name) (values relations) counted unnamed,
      )
