-- ===== src/Service/Model.antt =====
-- internal/eds/pkg/directory/v3/model.go: the manifest, read and written in chunks. A Send that fails
-- ends a call early and is left out, and so are the JSON form of a model and the messages that were sent
-- before an error.
pub mod Chunks
pub mod Chunked
use eamerald.Base.{
  ℕ, zero, suc, ◌+◌, ◌-◌, not, ◌&&◌, Bool, true, false, Option, some, List, [], ◌∷◌, ◌++◌,
  if◌then◌else◌, ltb, length, take, drop,
}
use eamerald.Base.Bytes.{Bytes, eqb}
use eamerald.Base.Exec.{
  Error, Result, ok, err, Exec, bind_result, Result-map, is_not_found, foreign, hash_mismatch,
  unknown, not_found, invalid_argument, transact, lift, reads, pure, raise, with_error, or_error,
  ◌>>=◌, ◌>>◌,
}
use eamerald.Data.{Timestamp}
use eamerald.Store.Manifest.{Metadata, ManifestTx}
use eamerald.Ds.Manifest.{
  Manifest, offset64, write_hash, format_uint, get_manifest, get_model, set_manifest, set_model,
}
use eamerald.Service.Reader.{contains_etag}

-- A message of the stream to the client.
pub data GetManifestResponse (Model : Type 0) : Type 0 where
  metadata_msg : Metadata → GetManifestResponse Model
  body_msg : Bytes → GetManifestResponse Model
  model_msg : Model → GetManifestResponse Model

-- The validators, the headers, the clock, and azm: its chunk size, Load of a manifest, its test of a
-- model against the cached one and the statistics of the store, and the etag of the cached one.
pub record ModelContext (tx : ManifestTx) : Type 0 where
  pub get_manifest_request : Result (Unit {0})
  pub delete_manifest_request : Result (Unit {0})
  pub valid_body : Bytes → Result (Unit {0})
  pub valid_metadata : Metadata → Result (Unit {0})
  pub if_match : Bytes
  pub if_none_match : List Bytes
  pub with_body : Bool
  pub with_model : Bool
  pub now : Timestamp
  pub max_chunk_size : ℕ
  pub load : Bytes → Result tx.Model
  pub can_update : tx.Model → tx.State → Result (Unit {0})
  pub with_metadata : Metadata → tx.Model → tx.Model
  pub cached_etag : Bytes

abbrev pub empty_manifest : Manifest
empty_manifest = record { metadata = record { updated_at = Option.none; etag = [] }; body = [] }

-- A manifest that is not found is the empty one.
unfoldable pub or_empty : Result Manifest → Result Manifest
or_empty (ok m) = ok m
or_empty (err e) = if is_not_found e then ok empty_manifest else err (foreign false 0)

abbrev pub slice : ℕ → ℕ → Bytes → Bytes
slice from until bytes = take (until - from) (drop from bytes)

-- The loop over curByte, with fuel.
unfoldable pub chunks_from : ℕ → ℕ → ℕ → Bytes → List Bytes
chunks_from size zero cur_byte bytes = []
chunks_from size (suc fuel) cur_byte bytes =
    let rest = chunks_from size fuel (cur_byte + size) bytes in
    if ltb cur_byte (length bytes)
    then (if ltb (length bytes) (cur_byte + size)
        then slice cur_byte (length bytes) bytes
        else slice cur_byte (cur_byte + size) bytes)
      ∷ rest
    else []

unfoldable pub chunks : ℕ → Bytes → List Bytes
unfolding chunks_from
chunks size bytes = chunks_from size (suc (length bytes)) 0 bytes

abbrev pub body_msgs : {Model : Type 0} → List Bytes → List (GetManifestResponse Model)
body_msgs [] = []
body_msgs (b ∷ bodies) = body_msg b ∷ body_msgs bodies

-- The loop of Recv of SetManifest, over the bodies that it receives: each adds to the data, and all
-- the data so far is written to the hash.
unfoldable pub receive_bodies :
    (Bytes → Result (Unit {0})) → List Bytes → Bytes → ℕ → Result (Bytes × ℕ)
unfolding write_hash
receive_bodies valid [] bytes h = ok (bytes, h)
receive_bodies valid (b ∷ bodies) bytes h =
    bind_result (valid b) λ _. receive_bodies valid bodies (bytes ++ b) (write_hash h (bytes ++ b))

module _ (tx : ManifestTx) (ctx : ModelContext tx) where
  unfoldable pub found_model : Result tx.Model → Result (List (GetManifestResponse tx.Model))
  found_model (ok m) = ok (model_msg m ∷ [])
  found_model (err e) = if is_not_found e then err not_found else err (foreign false 0)

  unfoldable pub model_part : tx.State → Result (List (GetManifestResponse tx.Model))
  unfolding get_model found_model
  model_part s = if ctx.with_model then found_model (get_model tx s) else ok []

  unfoldable pub send_manifest : tx.State → Manifest → Result (List (GetManifestResponse tx.Model))
  unfolding contains_etag chunks model_part
  send_manifest s m =
      if contains_etag ctx.if_none_match m.metadata.etag
      then ok (metadata_msg m.metadata ∷ [])
      else Result-map
          (λ rest.
            metadata_msg m.metadata
            ∷ ((if ctx.with_body then body_msgs (chunks ctx.max_chunk_size m.body) else [])
                ++ rest))
          (model_part s)

  unfoldable pub get_manifest_stream : tx.State → Result (List (GetManifestResponse tx.Model))
  unfolding or_empty get_manifest send_manifest
  get_manifest_stream s =
      bind_result ctx.get_manifest_request
        λ _. bind_result (or_empty (get_manifest tx s)) (send_manifest s)

  -- setManifest
  unfoldable pub set_manifest_tx : tx.Model → Metadata → Bytes → Exec tx.State (Unit {0})
  unfolding set_manifest set_model
  set_manifest_tx m md bytes = do
    reads (ctx.can_update m)
    with_error (set_manifest tx md bytes) unknown
    with_error (set_model tx ctx.with_metadata md m) unknown

  -- SetModel has written the metadata into the model that the cache gets.
  unfoldable pub set_loaded : Bytes → Metadata → Exec tx.State tx.Model
  unfolding set_manifest_tx
  set_loaded bytes md = do
    lift (ctx.valid_metadata md)
    m ← lift (or_error (ctx.load bytes) invalid_argument)
    transact (set_manifest_tx m md bytes)
    pure (ctx.with_metadata md m)

  -- SetManifest, with the bodies of the stream and the end of it. What is left of it is the update of
  -- the cache with the model that comes back.
  unfoldable pub set_manifest_stream : List Bytes → Result (Unit {0}) → Exec tx.State tx.Model
  unfolding receive_bodies format_uint set_loaded
  set_manifest_stream bodies end =
      if not (eqb ctx.if_match []) && not (eqb ctx.if_match ctx.cached_etag)
      then raise hash_mismatch
      else (do
        (bytes, h) ← lift (receive_bodies ctx.valid_body bodies [] offset64)
        lift end
        set_loaded bytes (record { updated_at = some ctx.now; etag = format_uint h }))

  -- The body of the transaction of DeleteManifest, behind the check of the etag.
  unfoldable pub reset_manifest : tx.Model → Metadata → Exec tx.State (Unit {0})
  unfolding set_manifest set_model
  reset_manifest m md = do
    with_error tx.delete_manifest unknown
    with_error (set_manifest tx md []) unknown
    with_error (set_model tx ctx.with_metadata md m) unknown

  -- No manifest ends the call well.
  unfoldable pub delete_matching : tx.Model → Metadata → Result Manifest → Exec tx.State (Unit {0})
  unfolding reset_manifest
  delete_matching m md (err e) = pure tt
  delete_matching m md (ok found) =
      if eqb ctx.if_match found.metadata.etag then reset_manifest m md else raise hash_mismatch

  unfoldable pub delete_manifest_tx : tx.Model → Metadata → Exec tx.State (Unit {0})
  unfolding get_manifest reset_manifest delete_matching
  delete_manifest_tx m md s =
      if eqb ctx.if_match []
      then reset_manifest m md s
      else delete_matching m md (get_manifest tx s) s

  unfoldable pub delete_manifest : Exec tx.State (Unit {0})
  unfolding format_uint delete_manifest_tx
  delete_manifest = do
    lift ctx.delete_manifest_request
    m ← lift (or_error (ctx.load []) invalid_argument)
    transact
        (delete_manifest_tx m (record { updated_at = some ctx.now; etag = format_uint offset64 }))
