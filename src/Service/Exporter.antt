-- ===== src/Service/Exporter.antt =====
-- internal/eds/pkg/directory/v3/exporter.go: the objects and relations of the store, or their numbers, as
-- a stream of responses. A Send that fails is left out, and so are the JSON form of the numbers and the
-- responses that were sent before an error.
use eamerald.Base.{Bool, List, [], ◌∷◌, ◌++◌, if◌then◌else◌}
use eamerald.Base.Exec.{Result, ok, bind_result, Result-map}
use eamerald.Data.{Object, Relation, by_object, no_filter}
use eamerald.Store.Page.{values}
use eamerald.Store.Tx.{Tx}
use eamerald.Ds.Object.{patch_object_read}
use eamerald.Ds.Stats.{Stats, count_objects, count_relations}

pub data ExportResponse : Type 0 where
  exported_object : Object → ExportResponse
  exported_relation : Relation → ExportResponse
  exported_stats : Stats → ExportResponse

-- The bits of the options of a request, dse.Option.
pub record Options : Type 0 where
  pub stats : Bool
  pub data_objects : Bool
  pub data_relations : Bool

abbrev pub object_responses : List Object → List ExportResponse
object_responses [] = []
object_responses (o ∷ objects) = exported_object (patch_object_read o) ∷ object_responses objects

abbrev pub relation_responses : List Relation → List ExportResponse
relation_responses [] = []
relation_responses (r ∷ relations) = exported_relation r ∷ relation_responses relations

module _ (tx : Tx) where
  unfoldable pub export_objects : tx.State → Result (List ExportResponse)
  unfolding patch_object_read
  export_objects s = Result-map (λ rows. object_responses (values rows)) (tx.scan_objects [] [] s)

  unfoldable pub export_relations : tx.State → Result (List ExportResponse)
  export_relations s =
      Result-map (λ rows. relation_responses (values rows))
        (tx.scan_relations by_object no_filter [] s)

  unfoldable pub export_stats : Options → tx.State → Result (List ExportResponse)
  unfolding count_objects count_relations
  export_stats opts s =
      bind_result (if opts.data_objects then count_objects tx [] s else ok []) λ stats.
        Result-map (λ counted. exported_stats counted ∷ [])
          (if opts.data_relations then count_relations tx stats s else ok stats)

  -- Stats mode goes before the others.
  unfoldable pub export : Options → tx.State → Result (List ExportResponse)
  unfolding export_objects export_relations export_stats
  export opts s =
      if opts.stats
      then export_stats opts s
      else bind_result (if opts.data_objects then export_objects s else ok []) λ objects.
        Result-map (λ relations. objects ++ relations)
          (if opts.data_relations then export_relations s else ok [])
