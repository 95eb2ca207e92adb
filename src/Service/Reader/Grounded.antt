-- ===== src/Service/Reader/Grounded.antt =====
-- What stands behind a check of internal/eds/pkg/directory/v3/reader.go over the BoltDB store.
use eamerald.Base.{◌≡◌, true, inl, inr}
use eamerald.Base.Bytes.{Bytes}
use eamerald.Base.Exec.{ok, Result-cases}
use eamerald.Data.{Relation, Direction, by_object, by_subject}
use eamerald.Bolt.{Backend, BackendLaws}
use eamerald.Bdb.Keys.{is_set, type_id_separator, instance_separator}
use eamerald.Bdb.Keys.Injective.{lacks}
use eamerald.Bdb.Implements.{bdb_tx}
use eamerald.Bdb.Relations.{relations_exist_for_object}
use eamerald.Bdb.Relations.Index.{IsIndexed}
use eamerald.Bdb.Relations.Exists.{Leads, IsStored, relations_exist_for_object-IsStored}
use eamerald.Ds.Check.{CheckRequest, relation_identifier_exist, get_relations}
use eamerald.Service.Reader.{ReaderContext}
use eamerald.Service.Reader.Check.{check}
use eamerald.Service.Reader.Checked.{check-PermittedBy}

-- A type and an id that are not blank, without the separators of the keys.
abbrev pub IsNamed : Bytes → Bytes → Type 0
IsNamed type id =
    (is_set type ≡ true)
    × (is_set id ≡ true)
    × (lacks type_id_separator type ≡ true)
    × (lacks instance_separator id ≡ true)

-- Some stored relation has the subject of the request, and some has its object.
abbrev pub IsGrounded : (b : Backend) → b.bolt.Tx → CheckRequest → Type 0
IsGrounded b s i =
    ((r : Relation) × IsStored b s r
      × (r.subject_type ≡ i.subject_type)
      × (r.subject_id ≡ i.subject_id))
    × ((r : Relation) × IsStored b s r
        × (r.object_type ≡ i.object_type)
        × (r.object_id ≡ i.object_id))

module _ {b : Backend} (laws : BackendLaws b) (ctx : ReaderContext) where
  exist-IsStored :
      (d : Direction) (t i : Bytes) (s : b.bolt.Tx)
      → IsIndexed b s
      → IsNamed t i
      → relation_identifier_exist (bdb_tx b) ctx.graph d t i s ≡ true
      → (r : Relation) × IsStored b s r × Leads d t i r.ident
  unfolding relation_identifier_exist
  exist-IsStored d t i s indexed (ht, hi, lt, li) h =
      elim (Result-cases (relations_exist_for_object b d t i s)) [
        | inr (x, e) ↦ absurd (cc (rw e at h))
        | inl (found, e) ↦
            let yes_found : found ≡ true = rw e at h in
            relations_exist_for_object-IsStored laws d t i s indexed ht hi lt li (rw yes_found at e)
      ]

  -- Over the BoltDB store, a check grants only when the request and the model are valid, a relation
  -- with its subject and one with its object are stored, and the search of the graph grants. The
  -- indexes of the store hold the same relations, with separable identifiers, and the types and ids
  -- of the request are not blank and hold no `:` and no `|` respectively.
  pub check-IsGrounded :
      (i : CheckRequest) (s : b.bolt.Tx)
      → IsIndexed b s
      → IsNamed i.subject_type i.subject_id
      → IsNamed i.object_type i.object_id
      → (check (bdb_tx b) ctx i s).check ≡ true
      → (ctx.check_request i ≡ ok tt)
        × (ctx.graph.validate i ≡ ok tt)
        × IsGrounded b s i
        × ((ctx.graph.search_graph i (get_relations (bdb_tx b) ctx.graph s)).0.check ≡ true)
  check-IsGrounded i s indexed subject object h =
      let (asked, (valid, has_subject, has_object, found)) =
        (check-PermittedBy (bdb_tx b) ctx i s).0 h in
      let (r, stored, (t, j)) =
        exist-IsStored by_subject i.subject_type i.subject_id s indexed subject has_subject in
      let (r', stored', (t', j')) =
        exist-IsStored by_object i.object_type i.object_id s indexed object has_object in
      (asked, valid, ((r, stored, t, j), (r', stored', t', j')), found)
