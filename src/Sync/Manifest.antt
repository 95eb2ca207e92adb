-- ===== src/Sync/Manifest.antt =====
-- internal/eds/pkg/datasync/manifest.go: the manifest stage of a sync. The remote stream is the list of
-- its messages and how it ends.
pub mod Settled
use eamerald.Base.{Bool, true, false, Option, none, some, List, [], ◌∷◌, ◌++◌, if◌then◌else◌}
use eamerald.Base.Bytes.{Bytes, eqb}
use eamerald.Base.Exec.{
  Error, Result, ok, err, Exec, bind_result, Result-map, is_not_found, foreign, unknown,
  invalid_argument, transact, lift, reads, pure, raise, with_error, or_error, ◌>>=◌, ◌>>◌,
}
use eamerald.Store.Manifest.{Metadata, ManifestTx}
use eamerald.Ds.Manifest.{Manifest, body_etag, get_manifest, set_manifest, set_model}
use eamerald.Service.Model.{GetManifestResponse, metadata_msg, body_msg, model_msg, ModelContext}

abbrev pub no_metadata : Metadata
no_metadata = record { updated_at = none; etag = [] }

-- The loop of Recv of getManifest.
unfoldable pub receive_manifest :
    {Model : Type 0} → List (GetManifestResponse Model) → Metadata → Bytes → Metadata × Bytes
receive_manifest [] md bytes = (md, bytes)
receive_manifest (metadata_msg new ∷ msgs) md bytes = receive_manifest msgs new bytes
receive_manifest (body_msg body ∷ msgs) md bytes = receive_manifest msgs md (bytes ++ body)
receive_manifest (model_msg m ∷ msgs) md bytes = receive_manifest msgs md bytes

unfoldable pub get_remote_manifest :
    {Model : Type 0}
    → Result (List (GetManifestResponse Model) × Result (Unit {0}))
    → Result (Metadata × Bytes)
unfolding receive_manifest
get_remote_manifest stream =
    bind_result stream
      λ messages. Result-map (λ _. receive_manifest messages.0 no_metadata []) messages.1

-- The metadata of the local manifest, empty if there is none.
unfoldable pub local_metadata : Result Manifest → Result Metadata
local_metadata (ok m) = ok m.metadata
local_metadata (err e) = if is_not_found e then ok no_metadata else err (foreign false 0)

module _ (tx : ManifestTx) (ctx : ModelContext tx) where
  unfoldable pub update_manifest : tx.Model → Metadata → Bytes → Exec tx.State (Unit {0})
  unfolding set_manifest set_model
  update_manifest m md bytes = do
    reads (ctx.can_update m)
    with_error (set_manifest tx md bytes) unknown
    with_error (set_model tx ctx.with_metadata md m) unknown

  -- setManifest, which returns the model for the cache: SetModel has written the metadata into it.
  unfoldable pub set_remote_manifest : Bytes → Metadata → Exec tx.State tx.Model
  unfolding update_manifest
  set_remote_manifest bytes md = do
    lift (ctx.valid_metadata md)
    m ← lift (or_error (ctx.load bytes) invalid_argument)
    transact (update_manifest m md bytes)
    pure (ctx.with_metadata md m)

  unfoldable pub set_if_changed : Metadata × Bytes → Metadata → Exec tx.State (Option tx.Model)
  unfolding set_remote_manifest body_etag
  set_if_changed (remote, bytes) local = if eqb local.etag remote.etag then pure none else (do
    m ← set_remote_manifest bytes (record { updated_at = some ctx.now; etag = body_etag bytes })
    pure (some m))

  -- syncManifest, with the model that the cache is updated with, if any.
  unfoldable pub sync_manifest :
      Result (List (GetManifestResponse tx.Model) × Result (Unit {0}))
      → Exec tx.State (Option tx.Model)
  unfolding get_remote_manifest local_metadata get_manifest set_if_changed
  sync_manifest stream = do
    remote ← lift (get_remote_manifest stream)
    local ← reads (λ s. local_metadata (get_manifest tx s))
    set_if_changed remote local
