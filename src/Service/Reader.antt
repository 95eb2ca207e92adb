-- ===== src/Service/Reader.antt =====
-- internal/eds/pkg/directory/v3/reader.go: reads of objects and relations, and checks. A read runs
-- in a view of the store, which it cannot change. A response beside an error is left out, since gRPC
-- sends the error alone.
pub mod Check
pub mod Pages
pub mod Checked
pub mod Grounded
pub mod Written
use eamerald.Base.{
  ℕ, Bool, true, false, Option, none, some, List, [], ◌∷◌, ◌++◌, map, length, if◌then◌else◌,
}
use eamerald.Base.Bytes.{Bytes, eqb}
use eamerald.Base.Dict.{insert}
use eamerald.Base.Exec.{
  Error, Result, ok, err, bind_result, Result-map, key_not_found, multiple_results,
}
use eamerald.Base.Int.{ℤ, pos, eqb_ℤ}
use eamerald.Data.{
  Object, Relation, RelationIdentifier, RelationFilter, Direction, by_object, by_subject, no_object,
}
use eamerald.Store.Page.{page, next_token, values}
use eamerald.Store.Tx.{Tx}
use eamerald.Ds.Check.{CheckRequest, GetGraphRequest, Graph}
use eamerald.Ds.Object.{str_key, patch_object_read}
use eamerald.Ds.Relation.{SafeRelation, path_and_filter, filter}
use eamerald.Service.Relations.{relations_by_object}

pub record PageRequest : Type 0 where
  pub size : ℤ
  pub token : Bytes

-- x.MaxPageSize
abbrev pub max_page_size : ℤ
max_page_size = pos 100

abbrev pub page_or_max : Option PageRequest → PageRequest
page_or_max none = record { size = max_page_size; token = [] }
page_or_max (some p) = p

-- The validators, the model, azm's graph search, and the If-None-Match header of the request. A
-- selector of relations is what azm makes of the request.
pub record ReaderContext : Type 0 where
  pub get_object_request : Bytes → Bytes → Result (Unit {0})
  pub get_object_many_request : List (Bytes × Bytes) → Result (Unit {0})
  pub get_objects_request : Bytes → Option PageRequest → Result (Unit {0})
  pub get_relation_request : SafeRelation → Result (Unit {0})
  pub get_relations_request : SafeRelation → Option PageRequest → Result (Unit {0})
  pub check_request : CheckRequest → Result (Unit {0})
  pub model_identifier : Bytes → Bytes → Result (Unit {0})
  pub model_selector : Bytes → Result (Unit {0})
  pub model_relation : SafeRelation → Result (Unit {0})
  pub get_graph_request : GetGraphRequest → Result (Unit {0})
  pub model_graph : GetGraphRequest → Result (Unit {0})
  -- errors.Unwrap, which may find nothing
  pub unwrap : Error → Option Error
  pub if_none_match : List Bytes
  pub graph : Graph

unfoldable pub contains_etag : List Bytes → Bytes → Bool
contains_etag [] etag = false
contains_etag (e ∷ etags) etag = if eqb e etag then true else contains_etag etags etag

-- A response, and whether it is a 304 (Not Modified).
pub record GetObjectResponse : Type 0 where
  pub result : Option Object
  pub relations : List Relation
  pub not_modified : Bool

abbrev pub not_modified_response : GetObjectResponse
not_modified_response = record { result = none; relations = []; not_modified = true }

abbrev pub Objects : Type 0
Objects = List (Bytes × Object)

pub record GetRelationResponse : Type 0 where
  pub result : Relation
  pub objects : Objects
  pub not_modified : Bool

pub record GetRelationsResponse : Type 0 where
  pub results : List Relation
  pub objects : Objects
  pub next_token : Bytes

abbrev pub found_or : Result Object → Object → Object
found_or (ok o) stub = o
found_or (err e) stub = stub

-- The loop of GetRelations: rows that the filter refuses are passed over.
unfoldable pub filtered_page :
    {A : Type 0} → (A → Bool) → ℤ → List A → List (A × Bytes) → List A × Bytes
unfolding next_token
filtered_page accepts size results [] = (results, [])
filtered_page accepts size results ((v, token) ∷ rows) =
    let skipped = filtered_page accepts size results rows in
    let results' = results ++ v ∷ [] in
    let more = filtered_page accepts size results' rows in
    if accepts v
    then if eqb_ℤ size (pos (length results')) then (results', next_token rows) else more
    else skipped

-- The rows of a scan are one relation exactly.
unfoldable pub single : List Relation → Result Relation
single [] = err key_not_found
single (r ∷ []) = ok r
single (r ∷ r' ∷ relations) = err multiple_results

module _ (tx : Tx) (ctx : ReaderContext) where
  unfoldable pub object_relations : Bool → Object → tx.State → Result (List Relation)
  unfolding relations_by_object
  object_relations false obj s = ok []
  object_relations true obj s =
      bind_result (relations_by_object tx by_subject obj.type obj.id s) λ incoming.
        bind_result (relations_by_object tx by_object obj.type obj.id s)
          λ outgoing. ok (incoming ++ outgoing)

  unfoldable pub read_object : Bool → tx.State → Object → Result GetObjectResponse
  unfolding object_relations contains_etag patch_object_read
  read_object with_relations s obj =
      if contains_etag ctx.if_none_match obj.etag
      then ok not_modified_response
      else Result-map
          (λ relations. record {
            result = some (patch_object_read obj);
            relations = relations;
            not_modified = false;
          })
          (object_relations with_relations obj s)

  unfoldable pub get_object : Bytes → Bytes → Bool → tx.State → Result GetObjectResponse
  unfolding read_object
  get_object object_type object_id with_relations s =
      bind_result (ctx.get_object_request object_type object_id) λ _.
        bind_result (ctx.model_identifier object_type object_id)
          λ _. bind_result (tx.get_object object_type object_id s) (read_object with_relations s)

  unfoldable pub all_valid : List (Bytes × Bytes) → Result (Unit {0})
  all_valid [] = ok tt
  all_valid ((t, i) ∷ param) = bind_result (ctx.model_identifier t i) λ _. all_valid param

  unfoldable pub read_many : List (Bytes × Bytes) → tx.State → Result (List Object)
  unfolding patch_object_read
  read_many [] s = ok []
  read_many ((t, i) ∷ param) s =
      bind_result (tx.get_object t i s)
        λ obj. Result-map (λ objs. patch_object_read obj ∷ objs) (read_many param s)

  unfoldable pub get_object_many : List (Bytes × Bytes) → tx.State → Result (List Object)
  unfolding all_valid read_many
  get_object_many param s =
      bind_result (ctx.get_object_many_request param)
        λ _. bind_result (all_valid param) λ _. read_many param s

  unfoldable pub valid_type : Bytes → Result (Unit {0})
  valid_type object_type = if eqb object_type [] then ok tt else ctx.model_selector object_type

  unfoldable pub patched_page : List Object × Bytes → List Object × Bytes
  unfolding patch_object_read
  patched_page (objs, token) = (map patch_object_read objs, token)

  unfoldable pub get_objects : Bytes → Option PageRequest → tx.State → Result (List Object × Bytes)
  unfolding valid_type patched_page page
  get_objects object_type req_page s =
      bind_result (ctx.get_objects_request object_type req_page) λ _.
        bind_result (valid_type object_type) λ _.
          Result-map (λ rows. patched_page (page rows (page_or_max req_page).size))
            (tx.scan_objects object_type (page_or_max req_page).token s)

  unfoldable pub add_objects : tx.State → Relation → Objects → Objects
  unfolding str_key insert
  add_objects s r objects =
      let sub =
        found_or (tx.get_object r.subject_type r.subject_id s)
          (record no_object { type = r.subject_type; id = r.subject_id }) in
      let obj =
        found_or (tx.get_object r.object_type r.object_id s)
          (record no_object { type = r.object_type; id = r.object_id }) in
      insert (insert objects (str_key sub.type sub.id) sub) (str_key obj.type obj.id) obj

  unfoldable pub objects_from : tx.State → Objects → List Relation → Objects
  unfolding add_objects
  objects_from s objects [] = objects
  objects_from s objects (r ∷ relations) = objects_from s (add_objects s r objects) relations

  unfoldable pub get_with_objects : tx.State → List Relation → Objects
  unfolding objects_from
  get_with_objects s relations = objects_from s [] relations

  unfoldable pub read_relation : Bool → tx.State → Relation → GetRelationResponse
  unfolding contains_etag get_with_objects
  read_relation with_objects s r =
      if contains_etag ctx.if_none_match r.etag
      then record { result = r; objects = []; not_modified = true }
      else record {
        result = r;
        objects = if with_objects then get_with_objects s (r ∷ []) else [];
        not_modified = false;
      }

  unfoldable pub scan_single : Direction × RelationFilter → tx.State → Result Relation
  unfolding single
  scan_single (dir, f) s = bind_result (tx.scan_relations dir f [] s) λ rows. single (values rows)

  unfoldable pub get_relation : SafeRelation → Bool → tx.State → Result GetRelationResponse
  unfolding path_and_filter scan_single read_relation
  get_relation i with_objects s = bind_result (ctx.get_relation_request i) λ _.
      bind_result (ctx.model_relation i) λ _.
        bind_result (path_and_filter ctx.graph.is_complete i)
          λ target. Result-map (read_relation with_objects s) (scan_single target s)

  unfoldable pub relations_page : Bool → tx.State → List Relation × Bytes → GetRelationsResponse
  unfolding get_with_objects
  relations_page with_objects s (results, token) = record {
    results = results;
    objects = if with_objects then get_with_objects s results else [];
    next_token = token;
  }

  -- The scan, for the direction, the prefix and the value filter of the request.
  unfoldable pub scan_page :
      PageRequest
      → Direction × RelationFilter × (RelationIdentifier → Bool)
      → tx.State
      → Result (List Relation × Bytes)
  unfolding filtered_page
  scan_page p (dir, f, accepts) s =
      Result-map (filtered_page (λ (r : Relation). accepts r.ident) p.size [])
        (tx.scan_relations dir f p.token s)

  unfoldable pub get_relations :
      SafeRelation → Option PageRequest → Bool → tx.State → Result GetRelationsResponse
  unfolding filter scan_page relations_page
  get_relations i req_page with_objects s = bind_result (ctx.get_relations_request i req_page) λ _.
      bind_result (ctx.model_relation i) λ _.
        Result-map (relations_page with_objects s)
          (scan_page (page_or_max req_page) (filter ctx.graph.is_complete i) s)
