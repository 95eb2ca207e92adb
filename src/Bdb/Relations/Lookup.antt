-- ===== src/Bdb/Relations/Lookup.antt =====
-- The relation store of internal/eds/pkg/bdb/relation_store.go as a map from identifiers: what a
-- lookup finds after a write or a delete.
use eamerald.Base.{◌≡◌, ◌≢◌, ◌⊎◌, refl, ◌∙◌, Bool, true, false, ◌&&◌, inl, inr, Bool-cases}
use eamerald.Base.Bytes.{Bytes, eqb, eqb-eq, eqb_refl}
use eamerald.Base.Exec.{ok, err, key_not_found, bind-ok}
use eamerald.Data.{Relation, RelationIdentifier}
use eamerald.Bolt.{path_eq, Backend, BackendLaws}
use eamerald.Bdb.Bucket.{relations_obj_path, relations_sub_path, set_message, delete_key}
use eamerald.Bdb.Bucket.Steps.{
  set_message-ok, delete_key-ok, get_message-set_message, get_message-delete_key,
  get_message-put_ne, get_message-remove_ne,
}
use eamerald.Bdb.Keys.{obj_key, sub_key}
use eamerald.Bdb.Keys.Injective.{IsSeparable, obj_key_injective}
use eamerald.Bdb.Relations.{get_relation_exact, set_relation, delete_relation}

-- The two writes of a relation that was set.
pub record Writes (b : Backend) (r : Relation) (tx tx' : b.bolt.Tx) : Type 0 where
  pub mid : b.bolt.Tx
  pub obj_write :
      set_message b.bolt b.relations relations_obj_path (obj_key r.ident) r tx ≡ (ok r, mid)
  pub sub_write :
      set_message b.bolt b.relations relations_sub_path (sub_key r.ident) r mid ≡ (ok r, tx')

pub record Deletes (b : Backend) (i : RelationIdentifier) (tx tx' : b.bolt.Tx) : Type 0 where
  pub mid : b.bolt.Tx
  pub obj_delete : delete_key b.bolt relations_obj_path (obj_key i) tx ≡ (ok tt, mid)
  pub sub_delete : delete_key b.bolt relations_sub_path (sub_key i) mid ≡ (ok tt, tx')

other_bucket : (k j : Bytes) → (path_eq relations_sub_path relations_obj_path && eqb k j) ≡ false
unfolding path_eq eqb
other_bucket k j = refl

other_key :
    (i j : RelationIdentifier)
    → IsSeparable i
    → IsSeparable j
    → i ≢ j
    → (path_eq relations_obj_path relations_obj_path && eqb (obj_key i) (obj_key j)) ≡ false
unfolding path_eq eqb
other_key i j si sj ne = elim (Bool-cases (eqb (obj_key i) (obj_key j))) [
  | inl same ↦ absurd (ne (obj_key_injective si sj (eqb-eq (obj_key i) (obj_key j) same)))
  | inr other ↦ rw other
]

-- Two identifiers are equal or differ, which their keys decide.
obj_key-cases : (i j : RelationIdentifier) → IsSeparable i → IsSeparable j → (i ≡ j) ⊎ (i ≢ j)
obj_key-cases i j si sj = elim (Bool-cases (eqb (obj_key i) (obj_key j))) [
  | inl same ↦ inl (obj_key_injective si sj (eqb-eq (obj_key i) (obj_key j) same))
  | inr other ↦ inr (λ e. absurd (differ (eqb (obj_key i) (obj_key j)) (equal e) other))
]
  where
    equal : i ≡ j → eqb (obj_key i) (obj_key j) ≡ true
    equal e = rw e (eqb_refl (obj_key j))

    differ : (t : Bool) → t ≡ true → t ≡ false → ⊥
    differ t p q = cc

module _ (b : Backend) where
  pub set_relation-Writes :
      (r r' : Relation) (tx tx' : b.bolt.Tx)
      → set_relation b r tx ≡ (ok r', tx')
      → Writes b r tx tx'
  unfolding set_relation
  set_relation-Writes r r' tx tx' h =
      let (r1, mid, first_ok, rest) =
        bind-ok (set_message b.bolt b.relations relations_obj_path (obj_key r.ident) r) _ tx r' tx'
          h in
      let (r2, last, second_ok, done) =
        bind-ok (set_message b.bolt b.relations relations_sub_path (sub_key r.ident) r) _ mid r' tx'
          rest in
      let (_, _, _, same1) =
        set_message-ok b.bolt b.relations relations_obj_path (obj_key r.ident) r r1 tx mid
          first_ok in
      let (_, _, _, same2) =
        set_message-ok b.bolt b.relations relations_sub_path (sub_key r.ident) r r2 mid last
          second_ok in
      record { mid = mid; obj_write = cc; sub_write = cc }

  pub delete_relation-Deletes :
      (i : RelationIdentifier) (tx tx' : b.bolt.Tx)
      → delete_relation b i tx ≡ (ok tt, tx')
      → Deletes b i tx tx'
  unfolding delete_relation
  delete_relation-Deletes i tx tx' h =
      let (_, mid, first_ok, rest) =
        bind-ok (delete_key b.bolt relations_obj_path (obj_key i)) _ tx tt tx' h in
      record { mid = mid; obj_delete = first_ok; sub_delete = rest }

module _ {b : Backend} (laws : BackendLaws b) where
  set_relation-rest :
      (r r' : Relation) (i : RelationIdentifier) (tx tx' : b.bolt.Tx)
      → IsSeparable r.ident
      → IsSeparable i
      → set_relation b r tx ≡ (ok r', tx')
      → r.ident ≢ i
      → get_relation_exact b i tx' ≡ get_relation_exact b i tx
  unfolding get_relation_exact
  set_relation-rest r r' i tx tx' sep sep' h ne =
      let w = set_relation-Writes b r r' tx tx' h in
      let (v1, _, put1, _) = set_message-ok b.bolt b.relations _ _ r r tx w.mid w.obj_write in
      let (v2, _, put2, _) = set_message-ok b.bolt b.relations _ _ r r w.mid tx' w.sub_write in
      get_message-put_ne laws.bolt b.relations w.mid tx' relations_sub_path (sub_key r.ident) v2
        relations_obj_path (obj_key i) put2 (other_bucket (sub_key r.ident) (obj_key i))
      ∙ get_message-put_ne laws.bolt b.relations tx w.mid relations_obj_path (obj_key r.ident) v1
          relations_obj_path (obj_key i) put1 (other_key r.ident i sep sep' ne)

  pub set_relation-same :
      (r r' : Relation) (tx tx' : b.bolt.Tx)
      → set_relation b r tx ≡ (ok r', tx')
      → get_relation_exact b r.ident tx' ≡ ok r
  unfolding get_relation_exact
  set_relation-same r r' tx tx' h =
      let w = set_relation-Writes b r r' tx tx' h in
      let (v2, _, put2, _) = set_message-ok b.bolt b.relations _ _ r r w.mid tx' w.sub_write in
      get_message-put_ne laws.bolt b.relations w.mid tx' relations_sub_path (sub_key r.ident) v2
        relations_obj_path (obj_key r.ident) put2 (other_bucket (sub_key r.ident) (obj_key r.ident))
      ∙ get_message-set_message laws.bolt b.relations _ _ r r tx w.mid w.obj_write

  delete_relation-rest :
      (i j : RelationIdentifier) (tx tx' : b.bolt.Tx)
      → IsSeparable i
      → IsSeparable j
      → delete_relation b i tx ≡ (ok tt, tx')
      → i ≢ j
      → get_relation_exact b j tx' ≡ get_relation_exact b j tx
  unfolding get_relation_exact
  delete_relation-rest i j tx tx' sep sep' h ne =
      let w = delete_relation-Deletes b i tx tx' h in
      get_message-remove_ne laws.bolt b.relations w.mid tx' relations_sub_path (sub_key i)
        relations_obj_path (obj_key j) (delete_key-ok b.bolt _ _ w.mid tx' w.sub_delete)
        (other_bucket (sub_key i) (obj_key j))
      ∙ get_message-remove_ne laws.bolt b.relations tx w.mid relations_obj_path (obj_key i)
          relations_obj_path (obj_key j) (delete_key-ok b.bolt _ _ tx w.mid w.obj_delete)
          (other_key i j sep sep' ne)

  pub delete_relation-same :
      (i : RelationIdentifier) (tx tx' : b.bolt.Tx)
      → delete_relation b i tx ≡ (ok tt, tx')
      → get_relation_exact b i tx' ≡ err key_not_found
  unfolding get_relation_exact
  delete_relation-same i tx tx' h =
      let w = delete_relation-Deletes b i tx tx' h in
      get_message-remove_ne laws.bolt b.relations w.mid tx' relations_sub_path (sub_key i)
        relations_obj_path (obj_key i) (delete_key-ok b.bolt _ _ w.mid tx' w.sub_delete)
        (other_bucket (sub_key i) (obj_key i))
      ∙ get_message-delete_key laws.bolt b.relations _ _ tx w.mid w.obj_delete

  -- After a relation was set, a lookup of its identifier finds it, and a lookup of an identifier
  -- that is not its own finds what it found before. Both identifiers are separable: no `:` in a
  -- type, no `|` in an id or a relation name.
  pub get_relation_exact-set_relation :
      (r r' : Relation) (i : RelationIdentifier) (tx tx' : b.bolt.Tx)
      → IsSeparable r.ident
      → IsSeparable i
      → set_relation b r tx ≡ (ok r', tx')
      → (get_relation_exact b r.ident tx' ≡ ok r)
        × ((r.ident ≡ i) ⊎ (get_relation_exact b i tx' ≡ get_relation_exact b i tx))
  get_relation_exact-set_relation r r' i tx tx' sep sep' h = (
    set_relation-same r r' tx tx' h,
    elim (obj_key-cases r.ident i sep sep') [
      | inl same ↦ inl same
      | inr ne ↦ inr (set_relation-rest r r' i tx tx' sep sep' h ne)
    ],
  )

  -- After a delete, a lookup of the identifier finds no key, and a lookup of an identifier that is
  -- not the deleted one is as before. Both identifiers are separable.
  get_relation_exact-delete_relation :
      (i j : RelationIdentifier) (tx tx' : b.bolt.Tx)
      → IsSeparable i
      → IsSeparable j
      → delete_relation b i tx ≡ (ok tt, tx')
      → (get_relation_exact b i tx' ≡ err key_not_found)
        × ((i ≡ j) ⊎ (get_relation_exact b j tx' ≡ get_relation_exact b j tx))
  get_relation_exact-delete_relation i j tx tx' sep sep' h = (
    delete_relation-same i tx tx' h,
    elim (obj_key-cases i j sep sep') [
      | inl same ↦ inl same
      | inr ne ↦ inr (delete_relation-rest i j tx tx' sep sep' h ne)
    ],
  )
