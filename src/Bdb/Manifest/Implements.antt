-- ===== src/Bdb/Manifest/Implements.antt =====
-- internal/eds/pkg/bdb/manifest_store.go fills the manifest operations of the storage interface.
use eamerald.Base.{◌≡◌, refl, sym, ap, ◌∙◌, true, false, inl, inr}
use eamerald.Base.Bytes.{Bytes, eqb}
use eamerald.Base.Exec.{Result, ok, err, bind-ok, bind-view, Result-cases, path_not_found}
use eamerald.Bolt.{Bolt, BoltLaws, Codec, BucketPath, path_eq}
use eamerald.Bdb.Bucket.{
  manifest_path, metadata_key, body_key, model_key, set_bucket, set_bucket-error, bucket_exists,
  create_bucket, get_message, set_message,
}
use eamerald.Bdb.Bucket.Steps.{get_message-set_message, set_message-bucket}
use eamerald.Bdb.Bucket.Frame.{get_message-set_message_ne, set_bucket-set_message}
use eamerald.Bdb.Manifest.{
  ManifestCodecs, manifest_exists, get_manifest_metadata, get_manifest_body, get_manifest_model,
  set_manifest, set_manifest_model, delete_manifest,
}
use eamerald.Store.Manifest.{Metadata, ManifestTx, ManifestLaws}

abbrev pub bdb_manifest_tx : Bolt → ManifestCodecs → ManifestTx
bdb_manifest_tx bolt codecs = record {
  State = bolt.Tx;
  Model = codecs.Model;
  manifest_exists = manifest_exists bolt codecs;
  get_manifest_metadata = get_manifest_metadata bolt codecs;
  get_manifest_body = get_manifest_body bolt codecs;
  get_manifest_model = get_manifest_model bolt codecs;
  set_manifest = set_manifest bolt codecs;
  set_manifest_model = set_manifest_model bolt codecs;
  delete_manifest = delete_manifest bolt codecs;
}

module _ {bolt : Bolt} (laws : BoltLaws bolt) (codecs : ManifestCodecs) where
  -- The state before the body is written, and the two writes.
  set_manifest-steps :
      (md : Metadata) (body : Bytes) (s s' : bolt.Tx)
      → set_manifest bolt codecs md body s ≡ (ok tt, s')
      → (t u : bolt.Tx) × (md' : Metadata) × (body' : Bytes) × (set_message bolt codecs.metadata
            manifest_path metadata_key md t
          ≡ (ok md', u))
        × (set_message bolt codecs.body manifest_path body_key body u ≡ (ok body', s'))
  unfolding set_manifest
  set_manifest-steps md body s s' h =
      let (_, t, created, rest) = bind-ok (create_bucket bolt manifest_path) _ s tt s' h in
      let (md', u, first, rest') =
        bind-ok (set_message bolt codecs.metadata manifest_path metadata_key md) _ t tt s' rest in
      let (body', v, second, done) =
        bind-ok (set_message bolt codecs.body manifest_path body_key body) _ u tt s' rest' in
      let same : v ≡ s' = ap (λ (p : Result (Unit {0}) × bolt.Tx). p.1) done in
      (t, u, md', body', first, second ∙ ap (λ w. (ok body', w)) same)

  bucket_exists-there :
      (s : bolt.Tx) (b : BucketPath)
      → set_bucket bolt s manifest_path ≡ ok b
      → bucket_exists bolt s manifest_path ≡ ok true
  unfolding bucket_exists
  bucket_exists-there s b h = rw (bucket_exists, h)

  bucket_exists-same :
      (t u : bolt.Tx)
      → set_bucket bolt u manifest_path ≡ set_bucket bolt t manifest_path
      → bucket_exists bolt u manifest_path ≡ bucket_exists bolt t manifest_path
  unfolding bucket_exists
  bucket_exists-same t u same = elim (Result-cases (set_bucket bolt t manifest_path)) [
    | inl (b, e) ↦ rw (bucket_exists, same, e)
    | inr (x, e) ↦
        let missing : set_bucket bolt t manifest_path ≡ err path_not_found =
          rw (set_bucket-error bolt t manifest_path x e) at e in
        rw (bucket_exists, same, missing)
  ]

  -- What a write under another key of the bucket of the manifest leaves.
  kept :
      {A B : Type 0} (codec : Codec A) (other : Codec B) (t : bolt.Tx) (k : Bytes) (m : A)
      (j : Bytes)
      → eqb k j ≡ false
      → get_message bolt other (set_message bolt codec manifest_path k m t).1 manifest_path j
        ≡ get_message bolt other t manifest_path j
  unfolding path_eq eqb
  kept codec other t k m j ne =
      get_message-set_message_ne laws codec other t manifest_path k m manifest_path j (rw ne refl)

  set_manifest-exists :
      (md : Metadata) (body : Bytes) (s s' : bolt.Tx)
      → set_manifest bolt codecs md body s ≡ (ok tt, s')
      → manifest_exists bolt codecs s' ≡ ok true
  unfolding manifest_exists
  set_manifest-exists md body s s' h =
      let (t, u, md', body', first, second) = set_manifest-steps md body s s' h in
      bucket_exists-there s' manifest_path (
        ap (λ (p : Result Bytes × bolt.Tx). set_bucket bolt p.1 manifest_path) (sym second)
        ∙ set_bucket-set_message laws codecs.body u manifest_path body_key body manifest_path
        ∙ set_message-bucket laws codecs.body manifest_path body_key body body' u s' second)

  set_manifest-metadata :
      (md : Metadata) (body : Bytes) (s s' : bolt.Tx)
      → set_manifest bolt codecs md body s ≡ (ok tt, s')
      → get_manifest_metadata bolt codecs s' ≡ ok md
  unfolding get_manifest_metadata eqb
  set_manifest-metadata md body s s' h =
      let (t, u, md', body', first, second) = set_manifest-steps md body s s' h in
      ap
        (λ (p : Result Bytes × bolt.Tx).
          get_message bolt codecs.metadata p.1 manifest_path metadata_key)
        (sym second)
      ∙ kept codecs.body codecs.metadata u body_key body metadata_key refl
      ∙ get_message-set_message laws codecs.metadata manifest_path metadata_key md md' t u first

  set_manifest-body :
      (md : Metadata) (body : Bytes) (s s' : bolt.Tx)
      → set_manifest bolt codecs md body s ≡ (ok tt, s')
      → get_manifest_body bolt codecs s' ≡ ok body
  unfolding get_manifest_body
  set_manifest-body md body s s' h =
      let (t, u, md', body', first, second) = set_manifest-steps md body s s' h in
      get_message-set_message laws codecs.body manifest_path body_key body body' u s' second

  -- The BoltDB manifest store does what the services rely on: after a set of the manifest its
  -- metadata and body are there, and a set of the model leaves them as they were, provided that the
  -- buckets and the codecs keep their laws.
  pub bdb_manifest_tx-ManifestLaws : ManifestLaws (bdb_manifest_tx bolt codecs)
  unfolding manifest_exists get_manifest_metadata get_manifest_body set_manifest_model eqb
  bdb_manifest_tx-ManifestLaws = record {
    exists-set_manifest = λ md body s s' h. set_manifest-exists md body s s' h;
    metadata-set_manifest = λ md body s s' h. set_manifest-metadata md body s s' h;
    body-set_manifest = λ md body s s' h. set_manifest-body md body s s' h;
    exists-set_manifest_model = λ m s.
        bind-view (λ t. bucket_exists bolt t manifest_path)
          (set_message bolt codecs.model manifest_path model_key m) _ s
          (bucket_exists-same s _
            (set_bucket-set_message laws codecs.model s manifest_path model_key m manifest_path))
          (λ a u. refl);
    metadata-set_manifest_model = λ m s.
        bind-view (λ t. get_message bolt codecs.metadata t manifest_path metadata_key)
          (set_message bolt codecs.model manifest_path model_key m) _ s
          (kept codecs.model codecs.metadata s model_key m metadata_key refl) (λ a u. refl);
    body-set_manifest_model = λ m s.
        bind-view (λ t. get_message bolt codecs.body t manifest_path body_key)
          (set_message bolt codecs.model manifest_path model_key m) _ s
          (kept codecs.model codecs.body s model_key m body_key refl) (λ a u. refl);
  }
