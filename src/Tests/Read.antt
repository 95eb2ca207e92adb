-- ===== src/Tests/Read.antt =====
-- Runs of the theorems on the reader and the access API of internal/eds/pkg/directory/v3.
use eamerald.Base.{
  ◌≡◌, ◌↔◌, ◌⊎◌, refl, Bool, true, false, ◌&&◌, not, Option, none, some, List, [], ◌∷◌, map, keep,
  arith, ◌<◌, length, if◌then◌else◌,
}
use eamerald.Base.Bytes.{Bytes, codes, eqb}
use eamerald.Base.Exec.{Result, ok, Result-map}
use eamerald.Base.Int.{pos}
use eamerald.Data.{Object, Relation, RelationIdentifier}
use eamerald.Bolt.{path_eq}
use eamerald.Store.Page.{values}
use eamerald.Ds.Object.{patch_object_read, patch_object_write}
use eamerald.Ds.Object.Patch.{patch_object_read-write}
use eamerald.Ds.Relation.{filter}
use eamerald.Ds.Check.{
  get_relations, CheckRequest, CheckResponse, graph_context, no_check, Graph, consume,
}
use eamerald.Bdb.Keys.{direction_path}
use eamerald.Bdb.Relations.{scan_relations}
use eamerald.Service.Reader.{ReaderContext}
use eamerald.Service.Reader.Check.{check}
use eamerald.Service.Reader.Pages.{all_relations, all_relations-accepted}
use eamerald.Service.Reader.Grounded.{IsGrounded, check-IsGrounded}
use eamerald.Service.Reader.Checked.{consume-check}
use eamerald.Service.Access.{EvaluationRequest, action_search}
use eamerald.Service.Access.Decided.{GraphLaws, the_check, action_check, action_search-keep}
use eamerald.Tests.Memory
use eamerald.Tests.Frames
use eamerald.Tests.Memory.{Store, memory}
use eamerald.Tests.Frames.{backend, backend_laws}
use eamerald.Tests.Stored.{of_bob, two, two-IsIndexed}
use eamerald.Tests.Served.{tx, bob}

-- A graph whose only permissions are the relations that are stored.
abbrev found_directly : Result (List RelationIdentifier) → CheckResponse
found_directly (ok (r ∷ rs)) = record { check = true; context = graph_context }
found_directly _ = no_check

abbrev direct_search :
    CheckRequest → (RelationIdentifier → Result (List RelationIdentifier)) → CheckResponse
direct_search i get = found_directly (
    get (record {
      object_type = i.object_type;
      object_id = i.object_id;
      relation = i.relation;
      subject_type = i.subject_type;
      subject_id = i.subject_id;
      subject_relation = [];
    }))

abbrev or_default : Bytes → Bytes → Bytes
or_default [] default = default
or_default (c ∷ given) default = c ∷ given

abbrev merge : CheckRequest → CheckRequest → CheckRequest
merge default i = record {
  object_type = or_default i.object_type default.object_type;
  object_id = or_default i.object_id default.object_id;
  relation = or_default i.relation default.relation;
  subject_type = or_default i.subject_type default.subject_type;
  subject_id = or_default i.subject_id default.subject_id;
}

abbrev direct_graph : Graph
direct_graph = record {
  validate = λ i. ok tt;
  is_complete = λ t i. not (eqb t []) && not (eqb i []);
  search_graph = λ i get. (direct_search i get, none);
  get_graph = λ req get. ok [];
  check_requests = λ default requests. map (merge default) requests;
  run_pool = λ consumer requests. ok (map consumer requests);
  available_permissions = λ o s. ok (codes "member" ∷ codes "viewer" ∷ []);
}

or_default-nil : (given : Bytes) → or_default given [] ≡ given
or_default-nil [] = refl
or_default-nil (c ∷ given) = refl

direct_graph-GraphLaws : GraphLaws direct_graph
direct_graph-GraphLaws = record {
  run_pool-map = λ consumer requests resp h. answered consumer requests resp h;
  check_requests-relations = λ ot oi st si names. merged ot oi st si names;
}
  where
    answered :
        (consumer : CheckRequest → CheckResponse) (requests : List CheckRequest)
        (resp : List CheckResponse)
        → ok (map consumer requests) ≡ ok resp
        → resp ≡ map consumer requests
    answered consumer requests resp h = cc

    merged :
        (ot oi st si : Bytes) (names : List Bytes)
        → map (merge (the_check ot oi [] st si)) (map (λ name. the_check [] [] name [] []) names)
          ≡ map (λ name. the_check ot oi name st si) names
    merged ot oi st si [] = refl
    merged ot oi st si (name ∷ names) = rw (or_default-nil name, merged ot oi st si names)

abbrev reading : ReaderContext
reading = record {
  get_object_request = λ t i. ok tt;
  get_object_many_request = λ p. ok tt;
  get_objects_request = λ t p. ok tt;
  get_relation_request = λ r. ok tt;
  get_relations_request = λ r p. ok tt;
  check_request = λ i. ok tt;
  model_identifier = λ t i. ok tt;
  model_selector = λ t. ok tt;
  model_relation = λ r. ok tt;
  get_graph_request = λ r. ok tt;
  model_graph = λ r. ok tt;
  unwrap = λ e. none;
  if_none_match = codes "#bob" ∷ [];
  graph = direct_graph;
}

all_relations-accepted_example :
    all_relations tx reading of_bob (pos 1) false two 3 []
    ≡ Result-map
        (λ rows.
          keep (λ (r : Relation). (filter direct_graph.is_complete of_bob).2 r.ident) (values rows))
        (scan_relations backend
          (filter direct_graph.is_complete of_bob).0
          (filter direct_graph.is_complete of_bob).1
          []
          two)
unfolding eamerald.Bdb.Relations.set_relation Frames.marshal_relation Memory.put path_eq
    direction_path filter eqb Memory.insert eamerald.Base.Order.before
all_relations-accepted_example =
    all_relations-accepted backend_laws reading of_bob false 0 two 3 (λ p. refl) refl short
  where
    short :
        length (memory.first two (direction_path (filter direct_graph.is_complete of_bob).0)) < 3
    short = omega arith

abbrev bob_is_member : CheckRequest
bob_is_member = record {
  object_type = codes "group";
  object_id = codes "staff";
  relation = codes "member";
  subject_type = codes "user";
  subject_id = codes "bob";
}

check-IsGrounded_example :
    (reading.check_request bob_is_member ≡ ok tt)
    × (direct_graph.validate bob_is_member ≡ ok tt)
    × IsGrounded backend two bob_is_member
    × ((direct_graph.search_graph bob_is_member (get_relations tx direct_graph two)).0.check ≡ true)
unfolding check eamerald.Bdb.Relations.relations_exist_for_object eamerald.Bolt.drop_before
    eamerald.Bdb.Relations.set_relation Frames.marshal_relation Memory.put path_eq eqb Memory.insert
    eamerald.Base.Order.before eamerald.Base.Bytes.has_prefix
    eamerald.Bdb.Relations.scan_relations_filtered Frames.unmarshal_ident
check-IsGrounded_example =
    check-IsGrounded backend_laws reading bob_is_member two two-IsIndexed (refl, refl, refl, refl)
      (refl, refl, refl, refl) granted
  where
    granted : (check tx reading bob_is_member two).check ≡ true
    granted = refl

consume-check_example :
    (consume tx direct_graph two bob_is_member).check ≡ (check tx reading bob_is_member two).check
consume-check_example = consume-check tx reading bob_is_member two refl refl

abbrev named_bob : Object
named_bob = record bob { display_name = codes "Bob"; properties = some [] }

patch_object_read-write_example :
    ((named_bob.properties ≡ none) × (patch_object_write named_bob ≡ none))
    ⊎ ((i' : Object) × (patch_object_write named_bob ≡ some i')
        × (i'.display_name ≡ [])
        × ((patch_object_read i').display_name ≡ codes "Bob")
        × (record (patch_object_read i') { properties = named_bob.properties } ≡ named_bob))
patch_object_read-write_example = patch_object_read-write named_bob (λ e. cc)

abbrev bob_on_staff : EvaluationRequest
bob_on_staff = record {
  subject = some (record { type = codes "user"; id = codes "bob" });
  action = none;
  resource = some (record { type = codes "group"; id = codes "staff" });
}

action_search-keep_example :
    some (codes "member" ∷ [])
    ≡ some (
        keep
          (λ name. (action_check tx reading direct_graph-GraphLaws bob_on_staff two name).check)
          (codes "member" ∷ codes "viewer" ∷ []))
unfolding action_search eamerald.Bdb.Relations.relations_exist_for_object eamerald.Bolt.drop_before
    eamerald.Bdb.Relations.set_relation Frames.marshal_relation Memory.put path_eq eqb Memory.insert
    eamerald.Base.Order.before eamerald.Base.Bytes.has_prefix
    eamerald.Bdb.Relations.scan_relations_filtered Frames.unmarshal_ident
action_search-keep_example =
    action_search-keep tx reading direct_graph-GraphLaws bob_on_staff two
      (codes "member" ∷ codes "viewer" ∷ []) (some (codes "member" ∷ [])) refl found
  where
    found : action_search tx reading bob_on_staff two ≡ ok (some (codes "member" ∷ []))
    found = refl
