-- ===== src/Bdb/Manifest.antt =====
-- internal/eds/pkg/bdb/manifest_store.go: the manifest, its body and its model under three keys of one
-- bucket. GetAny and SetAny, which are JSON, are the codec of the model.
pub mod Implements
use eamerald.Base.{Bool, List, [], ◌∷◌}
use eamerald.Base.Bytes.{Bytes}
use eamerald.Base.Exec.{Result, Exec, pure, ◌>>=◌, ◌>>◌}
use eamerald.Bolt.{Bolt, BucketPath, Codec}
use eamerald.Bdb.Bucket.{
  manifest_path, objects_path, relations_obj_path, relations_sub_path, metadata_key, body_key,
  model_key, bucket_exists, create_bucket, delete_bucket, get_message, set_message,
}
use eamerald.Store.Manifest.{Metadata}

pub record ManifestCodecs : Type 1 where
  pub Model : Type 0
  pub metadata : Codec Metadata
  pub body : Codec Bytes
  pub model : Codec Model

module _ (bolt : Bolt) (codecs : ManifestCodecs) where
  unfoldable pub manifest_exists : bolt.Tx → Result Bool
  unfolding bucket_exists
  manifest_exists tx = bucket_exists bolt tx manifest_path

  unfoldable pub get_manifest_metadata : bolt.Tx → Result Metadata
  unfolding get_message
  get_manifest_metadata tx = get_message bolt codecs.metadata tx manifest_path metadata_key

  unfoldable pub get_manifest_body : bolt.Tx → Result Bytes
  unfolding get_message
  get_manifest_body tx = get_message bolt codecs.body tx manifest_path body_key

  unfoldable pub get_manifest_model : bolt.Tx → Result codecs.Model
  unfolding get_message
  get_manifest_model tx = get_message bolt codecs.model tx manifest_path model_key

  unfoldable pub set_manifest : Metadata → Bytes → Exec bolt.Tx (Unit {0})
  unfolding create_bucket set_message
  set_manifest md body = do
    create_bucket bolt manifest_path
    _ ← set_message bolt codecs.metadata manifest_path metadata_key md
    _ ← set_message bolt codecs.body manifest_path body_key body
    pure tt

  unfoldable pub set_manifest_model : codecs.Model → Exec bolt.Tx (Unit {0})
  unfolding set_message
  set_manifest_model m = do _ ← set_message bolt codecs.model manifest_path model_key m; pure tt

  -- The loop over the four buckets.
  unfoldable pub reset_buckets : List BucketPath → Exec bolt.Tx (Unit {0})
  unfolding delete_bucket create_bucket
  reset_buckets [] = pure tt
  reset_buckets (path ∷ paths) = do
    delete_bucket bolt path
    create_bucket bolt path
    reset_buckets paths

  unfoldable pub delete_manifest : Exec bolt.Tx (Unit {0})
  unfolding reset_buckets
  delete_manifest =
      reset_buckets (manifest_path ∷ objects_path ∷ relations_obj_path ∷ relations_sub_path ∷ [])
