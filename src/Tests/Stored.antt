-- ===== src/Tests/Stored.antt =====
-- Runs of the theorems on the storage of internal/eds/pkg/bdb: two relations of `bob`, one as a
-- member and one as a viewer, in the store in memory.
use eamerald.Base.{◌≡◌, refl, false, Option, none, some, [], ◌∷◌, ◌⊎◌, length, arith, ◌<◌}
use eamerald.Base.Bytes.{Bytes, codes, eqb, has_prefix}
use eamerald.Base.Order.{before}
use eamerald.Base.Exec.{ok, Result-map}
use eamerald.Base.Int.{pos}
use eamerald.Data.{Relation, RelationIdentifier, by_subject, no_filter, no_relation, no_identifier}
use eamerald.Bolt.{path_eq, find, drop_before}
use eamerald.Store.Page.{page, values}
use eamerald.Store.Tx.{TxLaws}
use eamerald.Ds.Relation.{SafeRelation, value_filter, as_filter}
use eamerald.Bdb.Bucket.{relations_obj_path}
use eamerald.Bdb.Keys.Injective.{IsSeparable}
use eamerald.Bdb.Scan.{scan_rows}
use eamerald.Bdb.Scan.Resume.{scan_pages, scan_pages-all}
use eamerald.Bdb.Relations.{
  set_relation, delete_relation, get_relation_exact, scan_relations_filtered,
}
use eamerald.Bdb.Relations.Lookup.{get_relation_exact-set_relation}
use eamerald.Bdb.Relations.Index.{IsIndexed, set_relation-IsIndexed, delete_relation-IsIndexed}
use eamerald.Bdb.Relations.Complete.{scan_relations_filtered-full}
use eamerald.Bdb.Implements.{bdb_tx, bdb_tx-TxLaws}
use eamerald.Tests.Memory
use eamerald.Tests.Frames
use eamerald.Tests.Memory.{Store, no_entries, memory, memory_laws}
use eamerald.Tests.Frames.{backend, backend_laws, relation_frames}

abbrev pub member : RelationIdentifier
member = record {
  object_type = codes "group";
  object_id = codes "staff";
  relation = codes "member";
  subject_type = codes "user";
  subject_id = codes "bob";
  subject_relation = [];
}

abbrev pub viewer : RelationIdentifier
viewer = record {
  object_type = codes "doc";
  object_id = codes "plan";
  relation = codes "viewer";
  subject_type = codes "group";
  subject_id = codes "staff";
  subject_relation = codes "member";
}

abbrev pub member_relation : Relation
member_relation = record { ident = member; created_at = none; updated_at = none; etag = codes "m" }

abbrev viewer_relation : Relation
viewer_relation = record { ident = viewer; created_at = none; updated_at = none; etag = codes "v" }

member-IsSeparable : IsSeparable member
member-IsSeparable = record {
  object_type = refl;
  object_id = refl;
  relation = refl;
  subject_type = refl;
  subject_id = refl;
}

viewer-IsSeparable : IsSeparable viewer
viewer-IsSeparable = record {
  object_type = refl;
  object_id = refl;
  relation = refl;
  subject_type = refl;
  subject_id = refl;
}

-- The store after a set of the first relation, after one of the second, and after the delete of the
-- first.
abbrev pub one : Store
one = (set_relation backend member_relation no_entries).1

abbrev pub two : Store
two = (set_relation backend viewer_relation one).1

abbrev rest : Store
rest = (delete_relation backend member two).1

first_set_ok : set_relation backend member_relation no_entries ≡ (ok member_relation, one)
unfolding set_relation Memory.put Frames.marshal_relation
first_set_ok = refl

second_set_ok : set_relation backend viewer_relation one ≡ (ok viewer_relation, two)
unfolding set_relation Memory.put Frames.marshal_relation
second_set_ok = refl

delete_ok : delete_relation backend member two ≡ (ok tt, rest)
unfolding delete_relation Memory.remove
delete_ok = refl

no_entries-IsIndexed : IsIndexed backend no_entries
unfolding find
no_entries-IsIndexed = record { at = λ d k v h. absurd (missing v h) }
  where
    missing : (v : Bytes) → ◌≡◌ {A = Option Bytes} none (some v) → ⊥
    missing v h = cc

one-IsIndexed : IsIndexed backend one
one-IsIndexed =
    set_relation-IsIndexed backend_laws member_relation member_relation no_entries one
      member-IsSeparable no_entries-IsIndexed first_set_ok

set_relation-IsIndexed_example : IsIndexed backend two
set_relation-IsIndexed_example =
    set_relation-IsIndexed backend_laws viewer_relation viewer_relation one two viewer-IsSeparable
      one-IsIndexed second_set_ok

pub two-IsIndexed : IsIndexed backend two
two-IsIndexed =
    set_relation-IsIndexed backend_laws viewer_relation viewer_relation one two viewer-IsSeparable
      one-IsIndexed second_set_ok

delete_relation-IsIndexed_example : IsIndexed backend rest
delete_relation-IsIndexed_example =
    delete_relation-IsIndexed backend_laws member two rest member-IsSeparable two-IsIndexed
      delete_ok

get_relation_exact-set_relation_example :
    (get_relation_exact backend viewer two ≡ ok viewer_relation)
    × ((viewer ≡ member)
        ⊎ (get_relation_exact backend member two ≡ get_relation_exact backend member one))
get_relation_exact-set_relation_example =
    get_relation_exact-set_relation backend_laws viewer_relation viewer_relation member one two
      viewer-IsSeparable member-IsSeparable second_set_ok

-- The relations whose subject is `user:bob`.
abbrev pub of_bob : SafeRelation
of_bob = record {
  ident = record no_identifier { subject_type = codes "user"; subject_id = codes "bob" };
  has_subject_relation = false;
}

scan_relations_filtered-full_example :
    scan_relations_filtered backend by_subject (as_filter of_bob) (value_filter of_bob) two
    ≡ scan_relations_filtered backend by_subject no_filter (value_filter of_bob) two
scan_relations_filtered-full_example =
    scan_relations_filtered-full backend_laws by_subject of_bob two two-IsIndexed

-- The same scan, run.
of_bob_found :
    scan_relations_filtered backend by_subject (as_filter of_bob) (value_filter of_bob) two
    ≡ ok (member ∷ [])
unfolding scan_relations_filtered drop_before set_relation Frames.marshal_relation Memory.put
    path_eq eqb Memory.insert before as_filter has_prefix Frames.unmarshal_ident value_filter
of_bob_found = refl

scan_pages-all_example :
    scan_pages memory relation_frames no_relation 3 two relations_obj_path []
      (λ rows. page rows (pos 1))
      []
    ≡ Result-map values (scan_rows memory relation_frames no_relation two relations_obj_path [] [])
unfolding set_relation Frames.marshal_relation Memory.put path_eq eqb Memory.insert before
scan_pages-all_example =
    scan_pages-all memory_laws relation_frames no_relation two relations_obj_path [] 0 3 short
  where
    short : length (memory.first two relations_obj_path) < 3
    short = omega arith

bdb_tx-TxLaws_example : TxLaws (bdb_tx backend)
bdb_tx-TxLaws_example = bdb_tx-TxLaws backend_laws
