-- ===== src/Store/Manifest.antt =====
-- The manifest operations of internal/eds/pkg/store/store.go, and what the services rely on.
use eamerald.Base.{◌≡◌, Bool, true, Option}
use eamerald.Base.Bytes.{Bytes}
use eamerald.Base.Exec.{Result, ok, Exec}
use eamerald.Data.{Timestamp}

-- dsm.Metadata
pub record Metadata : Type 0 where
  pub updated_at : Option Timestamp
  pub etag : Bytes

-- A model is azm's.
pub record ManifestTx : Type 1 where
  pub State : Type 0
  pub Model : Type 0
  pub manifest_exists : State → Result Bool
  pub get_manifest_metadata : State → Result Metadata
  pub get_manifest_body : State → Result Bytes
  pub get_manifest_model : State → Result Model
  pub set_manifest : Metadata → Bytes → Exec State (Unit {0})
  pub set_manifest_model : Model → Exec State (Unit {0})
  pub delete_manifest : Exec State (Unit {0})

-- What is there after a set of the manifest, and after one of the model.
pub record ManifestLaws (tx : ManifestTx) : Type 0 where
  pub exists-set_manifest :
      (md : Metadata) (body : Bytes) (s s' : tx.State)
      → tx.set_manifest md body s ≡ (ok tt, s')
      → tx.manifest_exists s' ≡ ok true
  pub metadata-set_manifest :
      (md : Metadata) (body : Bytes) (s s' : tx.State)
      → tx.set_manifest md body s ≡ (ok tt, s')
      → tx.get_manifest_metadata s' ≡ ok md
  pub body-set_manifest :
      (md : Metadata) (body : Bytes) (s s' : tx.State)
      → tx.set_manifest md body s ≡ (ok tt, s')
      → tx.get_manifest_body s' ≡ ok body
  pub exists-set_manifest_model :
      (m : tx.Model) (s : tx.State)
      → tx.manifest_exists (tx.set_manifest_model m s).1 ≡ tx.manifest_exists s
  pub metadata-set_manifest_model :
      (m : tx.Model) (s : tx.State)
      → tx.get_manifest_metadata (tx.set_manifest_model m s).1 ≡ tx.get_manifest_metadata s
  pub body-set_manifest_model :
      (m : tx.Model) (s : tx.State)
      → tx.get_manifest_body (tx.set_manifest_model m s).1 ≡ tx.get_manifest_body s
