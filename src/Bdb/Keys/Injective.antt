-- ===== src/Bdb/Keys/Injective.antt =====
-- When the keys of internal/eds/pkg/bdb/relation_store.go tell relations apart.
use eamerald.Base.{ℕ, ◌≡◌, refl, Bool, true, not, ◌&&◌, [], ◌∷◌, ◌++◌, arith, ◌==◌}
use eamerald.Base.Bytes.{Bytes}
use eamerald.Data.{Direction, by_object, by_subject, RelationIdentifier}
use eamerald.Bdb.Keys.{
  type_id_separator, instance_separator, subject_relation_part, obj_key, sub_key, direction_key,
}

-- The byte does not occur.
abbrev pub lacks : ℕ → Bytes → Bool
lacks c [] = true
lacks c (a ∷ s) = not (a == c) && lacks c s

-- No type holds the separator of types and ids, and neither ids nor relation names hold the
-- separator of the key's parts.
pub record IsSeparable (r : RelationIdentifier) : Type 0 where
  pub object_type : lacks type_id_separator r.object_type ≡ true
  pub object_id : lacks instance_separator r.object_id ≡ true
  pub relation : lacks instance_separator r.relation ≡ true
  pub subject_type : lacks type_id_separator r.subject_type ≡ true
  pub subject_id : lacks instance_separator r.subject_id ≡ true

pub split_head :
    (c : ℕ) (a b x y : Bytes)
    → lacks c a ≡ true
    → lacks c b ≡ true
    → a ++ (c ∷ x) ≡ b ++ (c ∷ y)
    → a ≡ b
split_head c [] [] x y h k e = refl
split_head c [] (b ∷ bs) x y h k e = ground arith
split_head c (a ∷ as') [] x y h k e = ground arith
split_head c (a ∷ as') (b ∷ bs) x y h k e = ground (arith, split_head c as' bs x y)

append_cancel : (a x y : Bytes) → a ++ x ≡ a ++ y → x ≡ y
append_cancel [] x y e = e
append_cancel (a ∷ as') x y e = ground (arith, append_cancel as' x y)

pub split_tail :
    (c : ℕ) (a b x y : Bytes)
    → lacks c a ≡ true
    → lacks c b ≡ true
    → a ++ (c ∷ x) ≡ b ++ (c ∷ y)
    → x ≡ y
split_tail c [] [] x y h k e = cc
split_tail c [] (b ∷ bs) x y h k e = ground arith
split_tail c (a ∷ as') [] x y h k e = ground arith
split_tail c (a ∷ as') (b ∷ bs) x y h k e = ground (arith, split_tail c as' bs x y)

-- The id ends at the first separator, or at the end of the key.
split_last :
    (a b s t : Bytes)
    → lacks instance_separator a ≡ true
    → lacks instance_separator b ≡ true
    → a ++ subject_relation_part s ≡ b ++ subject_relation_part t
    → (a ≡ b) × (s ≡ t)
unfolding subject_relation_part
split_last [] [] [] [] h k e = (refl, refl)
split_last [] [] [] (t ∷ ts) h k e = cc
split_last [] [] (s ∷ ss) [] h k e = cc
split_last [] [] (s ∷ ss) (t ∷ ts) h k e = (refl, cc)
split_last [] (b ∷ bs) [] t h k e = cc
split_last [] (b ∷ bs) (s ∷ ss) t h k e = ground arith
split_last (a ∷ as') [] s [] h k e = cc
split_last (a ∷ as') [] s (t ∷ ts) h k e = ground arith
split_last (a ∷ as') (b ∷ bs) s t h k e = ground (arith, split_last as' bs s t)

identifier_eq :
    (r s : RelationIdentifier)
    → r.object_type ≡ s.object_type
    → r.object_id ≡ s.object_id
    → r.relation ≡ s.relation
    → r.subject_type ≡ s.subject_type
    → r.subject_id ≡ s.subject_id
    → r.subject_relation ≡ s.subject_relation
    → r ≡ s
identifier_eq r s a b c d e f = ground arith

-- The parts that both kinds of key join, in their order.
join_parts : Bytes → Bytes → Bytes → Bytes → Bytes → Bytes → Bytes
join_parts t i r u j sr =
    t
    ++ (type_id_separator
        ∷ (i
            ++ (instance_separator
                ∷ (r
                    ++ (instance_separator
                        ∷ (u ++ (type_id_separator ∷ (j ++ subject_relation_part sr))))))))

module _ {t t' i i' r r' u u' j j' sr sr' : Bytes} (type1 : lacks type_id_separator t ≡ true)
    (type2 : lacks type_id_separator t' ≡ true) (id1 : lacks instance_separator i ≡ true)
    (id2 : lacks instance_separator i' ≡ true) (relation1 : lacks instance_separator r ≡ true)
    (relation2 : lacks instance_separator r' ≡ true)
    (other_type1 : lacks type_id_separator u ≡ true)
    (other_type2 : lacks type_id_separator u' ≡ true)
    (other_id1 : lacks instance_separator j ≡ true)
    (other_id2 : lacks instance_separator j' ≡ true) where
  -- The six parts of a key can be read back from it.
  joined_parts :
      join_parts t i r u j sr ≡ join_parts t' i' r' u' j' sr'
      → (t ≡ t') × (i ≡ i') × (r ≡ r') × (u ≡ u') × (j ≡ j') × (sr ≡ sr')
  unfolding join_parts
  joined_parts e =
      let ids = split_tail _ t t' _ _ type1 type2 e in
      let relations = split_tail _ i i' _ _ id1 id2 ids in
      let types = split_tail _ r r' _ _ relation1 relation2 relations in
      let others = split_tail _ u u' _ _ other_type1 other_type2 types in
      let last = split_last j j' sr sr' other_id1 other_id2 others in
      (
        split_head _ t t' _ _ type1 type2 e,
        split_head _ i i' _ _ id1 id2 ids,
        split_head _ r r' _ _ relation1 relation2 relations,
        split_head _ u u' _ _ other_type1 other_type2 types,
        last.0,
        last.1,
      )

module _ {r s : RelationIdentifier} (hr : IsSeparable r) (hs : IsSeparable s) where
  pub obj_key_injective : obj_key r ≡ obj_key s → r ≡ s
  unfolding obj_key join_parts
  obj_key_injective e =
      let p =
        joined_parts hr.object_type hs.object_type hr.object_id hs.object_id hr.relation hs.relation
          hr.subject_type hs.subject_type hr.subject_id hs.subject_id e in
      identifier_eq r s p.0 p.1 p.2 p.3 p.4 p.5

  pub sub_key_injective : sub_key r ≡ sub_key s → r ≡ s
  unfolding sub_key join_parts
  sub_key_injective e =
      let p =
        joined_parts hr.subject_type hs.subject_type hr.subject_id hs.subject_id hr.relation
          hs.relation hr.object_type hs.object_type hr.object_id hs.object_id e in
      identifier_eq r s p.3 p.4 p.2 p.0 p.1 p.5

-- In either index, two relations whose types hold no `:` and whose ids and relation names hold no
-- `|` have one key only if they are the same relation.
pub direction_key_injective :
    (d : Direction) (r s : RelationIdentifier)
    → IsSeparable r
    → IsSeparable s
    → direction_key d r ≡ direction_key d s
    → r ≡ s
unfolding direction_key
direction_key_injective by_object r s hr hs e = obj_key_injective hr hs e
direction_key_injective by_subject r s hr hs e = sub_key_injective hr hs e
