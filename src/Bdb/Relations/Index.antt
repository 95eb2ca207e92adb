-- ===== src/Bdb/Relations/Index.antt =====
-- The two indexes of internal/eds/pkg/bdb/relation_store.go hold the same relations.
use eamerald.Base.{
  ◌≡◌, sym, ap, ◌∙◌, true, false, Option, none, some, inl, inr, Bool-cases, if◌then◌else◌,
}
use eamerald.Base.Bytes.{Bytes, eqb, eqb-eq, eqb_refl}
use eamerald.Base.Exec.{ok}
use eamerald.Data.{Relation, RelationIdentifier, Direction, by_object, by_subject}
use eamerald.Bolt.{path_eq, Backend, BackendLaws}
use eamerald.Bdb.Bucket.{relations_obj_path, relations_sub_path}
use eamerald.Bdb.Bucket.Steps.{set_message-ok, delete_key-ok}
use eamerald.Bdb.Keys.{obj_key, sub_key, direction_path, direction_key}
use eamerald.Bdb.Keys.Injective.{IsSeparable, direction_key_injective}
use eamerald.Bdb.Relations.{set_relation, delete_relation}
use eamerald.Bdb.Relations.Lookup.{set_relation-Writes, delete_relation-Deletes}

abbrev pub other : Direction → Direction
other by_object = by_subject
other by_subject = by_object

-- An entry of an index is a relation under its key, and the other index has it too.
pub record Indexed (b : Backend) (tx : b.bolt.Tx) (d : Direction) (k v : Bytes) : Type 0 where
  pub relation : Relation
  pub encoded : b.relations.marshal relation ≡ ok v
  pub keyed : k ≡ direction_key d relation.ident
  pub separable : IsSeparable relation.ident
  pub mirrored :
      b.bolt.get tx (direction_path (other d)) (direction_key (other d) relation.ident) ≡ some v

pub record IsIndexed (b : Backend) (tx : b.bolt.Tx) : Type 0 where
  pub at :
      (d : Direction) (k v : Bytes)
      → b.bolt.get tx (direction_path d) k ≡ some v
      → Indexed b tx d k v

module _ {b : Backend} (laws : BackendLaws b) where
  marshal_once :
      (r : Relation) (v w : Bytes)
      → b.relations.marshal r ≡ ok v
      → b.relations.marshal r ≡ ok w
      → v ≡ w
  marshal_once r v w p q = cc

  open b.bolt use {Tx, get}

  abbrev After : Tx → Tx → RelationIdentifier → Option Bytes → Type 0
  After tx tx' i new =
      (d : Direction) (j : Bytes)
      → get tx' (direction_path d) j
        ≡ (if eqb (direction_key d i) j then new else get tx (direction_path d) j)

  two_puts :
      (i : RelationIdentifier) (v : Bytes) (tx mid tx' : Tx)
      → b.bolt.put tx relations_obj_path (obj_key i) v ≡ ok mid
      → b.bolt.put mid relations_sub_path (sub_key i) v ≡ ok tx'
      → After tx tx' i (some v)
  unfolding direction_path direction_key path_eq eqb
  two_puts i v tx mid tx' p q by_object j =
      laws.bolt.get-put mid relations_sub_path (sub_key i) v tx' relations_obj_path j q
      ∙ laws.bolt.get-put tx relations_obj_path (obj_key i) v mid relations_obj_path j p
  two_puts i v tx mid tx' p q by_subject j =
      laws.bolt.get-put mid relations_sub_path (sub_key i) v tx' relations_sub_path j q
      ∙ ap (λ (old : Option Bytes). if eqb (sub_key i) j then some v else old)
          (laws.bolt.get-put tx relations_obj_path (obj_key i) v mid relations_sub_path j p)

  two_removes :
      (i : RelationIdentifier) (tx mid tx' : Tx)
      → b.bolt.remove tx relations_obj_path (obj_key i) ≡ ok mid
      → b.bolt.remove mid relations_sub_path (sub_key i) ≡ ok tx'
      → After tx tx' i none
  unfolding direction_path direction_key path_eq eqb
  two_removes i tx mid tx' p q by_object j =
      laws.bolt.get-remove mid relations_sub_path (sub_key i) tx' relations_obj_path j q
      ∙ laws.bolt.get-remove tx relations_obj_path (obj_key i) mid relations_obj_path j p
  two_removes i tx mid tx' p q by_subject j =
      laws.bolt.get-remove mid relations_sub_path (sub_key i) tx' relations_sub_path j q
      ∙ ap (λ (old : Option Bytes). if eqb (sub_key i) j then none else old)
          (laws.bolt.get-remove tx relations_obj_path (obj_key i) mid relations_sub_path j p)

  -- A set puts the same bytes under one key of either index.
  get-set_relation :
      (r r' : Relation) (tx tx' : Tx)
      → set_relation b r tx ≡ (ok r', tx')
      → (v : Bytes) × (b.relations.marshal r ≡ ok v) × After tx tx' r.ident (some v)
  get-set_relation r r' tx tx' h =
      let w = set_relation-Writes b r r' tx tx' h in
      let (v, e, put1, _) = set_message-ok b.bolt b.relations _ _ r r tx w.mid w.obj_write in
      let (v2, e2, put2, _) = set_message-ok b.bolt b.relations _ _ r r w.mid tx' w.sub_write in
      (v, e, two_puts r.ident v tx w.mid tx' put1 (rw (marshal_once r v v2 e e2) put2))

  get-delete_relation :
      (i : RelationIdentifier) (tx tx' : Tx)
      → delete_relation b i tx ≡ (ok tt, tx')
      → After tx tx' i none
  get-delete_relation i tx tx' h =
      let w = delete_relation-Deletes b i tx tx' h in
      two_removes i tx w.mid tx' (delete_key-ok b.bolt _ _ tx w.mid w.obj_delete)
        (delete_key-ok b.bolt _ _ w.mid tx' w.sub_delete)

  -- The other key of a relation is the key of no other relation.
  other_key_apart :
      (d : Direction) (i j : RelationIdentifier)
      → IsSeparable i
      → IsSeparable j
      → eqb (direction_key d i) (direction_key d j) ≡ false
      → eqb (direction_key (other d) i) (direction_key (other d) j) ≡ false
  other_key_apart d i j si sj apart =
      elim (Bool-cases (eqb (direction_key (other d) i) (direction_key (other d) j))) [
        | inl same ↦
            let one = direction_key_injective (other d) i j si sj (eqb-eq _ _ same) in
            let k : eqb (direction_key d i) (direction_key d j) ≡ true =
              rw one (eqb_refl (direction_key d j)) in
            cc
        | inr distinct ↦ distinct
      ]

  -- An entry that a write of another relation left alone is still mirrored.
  Indexed-keep :
      (tx tx' : Tx) (i : RelationIdentifier) (new : Option Bytes) (d : Direction) (k v : Bytes)
      → IsSeparable i
      → After tx tx' i new
      → eqb (direction_key d i) k ≡ false
      → Indexed b tx d k v
      → Indexed b tx' d k v
  Indexed-keep tx tx' i new d k v sep after apart x = record {
    relation = x.relation;
    encoded = x.encoded;
    keyed = x.keyed;
    separable = x.separable;
    mirrored =
        after (other d) (direction_key (other d) x.relation.ident)
        ∙ rw (other_key_apart d i x.relation.ident sep x.separable (rw x.keyed at apart))
            x.mirrored;
  }

  -- After a relation with a separable identifier was set, every entry of either index is still a
  -- relation under its key, with a separable identifier, and the other index holds it too.
  pub set_relation-IsIndexed :
      (r r' : Relation) (tx tx' : Tx)
      → IsSeparable r.ident
      → IsIndexed b tx
      → set_relation b r tx ≡ (ok r', tx')
      → IsIndexed b tx'
  set_relation-IsIndexed r r' tx tx' sep x h = record {
    at = λ d k w stored.
        let (v, encoded, after) = get-set_relation r r' tx tx' h in
        let now : (if eqb (direction_key d r.ident) k then some v else get tx (direction_path d) k)
            ≡ some w =
          sym (after d k) ∙ stored in
        elim (Bool-cases (eqb (direction_key d r.ident) k)) [
          | inl hit ↦
              let same : some v ≡ some w = rw hit at now in
              record {
                relation = r;
                encoded = cc;
                keyed = sym (eqb-eq _ _ hit);
                separable = sep;
                mirrored =
                    after (other d) (direction_key (other d) r.ident)
                    ∙ rw (eqb_refl (direction_key (other d) r.ident)) same;
              }
          | inr miss ↦
              Indexed-keep tx tx' r.ident (some v) d k w sep after miss
                (x.at d k w (rw miss at now))
        ];
  }

  -- After a relation with a separable identifier was deleted, every entry of either index is still
  -- a relation under its key, with a separable identifier, and the other index holds it too.
  pub delete_relation-IsIndexed :
      (i : RelationIdentifier) (tx tx' : Tx)
      → IsSeparable i
      → IsIndexed b tx
      → delete_relation b i tx ≡ (ok tt, tx')
      → IsIndexed b tx'
  delete_relation-IsIndexed i tx tx' sep x h = record {
    at = λ d k w stored.
        let after = get-delete_relation i tx tx' h in
        let now : (if eqb (direction_key d i) k then none else get tx (direction_path d) k)
            ≡ some w =
          sym (after d k) ∙ stored in
        elim (Bool-cases (eqb (direction_key d i) k)) [
          | inl hit ↦ let gone : ◌≡◌ {A = Option Bytes} none (some w) = rw hit at now in cc
          | inr miss ↦ Indexed-keep tx tx' i none d k w sep after miss (x.at d k w (rw miss at now))
        ];
  }
