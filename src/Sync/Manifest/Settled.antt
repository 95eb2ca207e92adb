-- ===== src/Sync/Manifest/Settled.antt =====
-- What the manifest stage of internal/eds/pkg/datasync/manifest.go receives, and when it is done.
use eamerald.Base.{
  ℕ, suc, ◌≡◌, refl, sym, ap, ◌∙◌, true, false, Option, none, some, List, [], ◌∷◌, ◌++◌, Bool-cases,
  inl, inr,
}
use eamerald.Base.Bytes.{Bytes, eqb, eqb_refl}
use eamerald.Base.Exec.{
  just_ok, is_not_found, Result, ok, bind-ok, transact, transact-ok, with_error-ok, ◌>>◌, or_error,
  invalid_argument, Result-cases, reads, with_error, unknown, pure,
}
use mathlib.Core.List.{append_assoc, append-nil}
use eamerald.Store.Manifest.{Metadata, ManifestTx, ManifestLaws}
use eamerald.Ds.Manifest.{
  Manifest, body_etag, get_manifest, exists_or_false, get_model, set_manifest, set_model,
}
use eamerald.Service.Reader.{contains_etag}
use eamerald.Service.Model.{
  GetManifestResponse, metadata_msg, model_msg, body_msgs, chunks, ModelContext, or_empty,
  model_part, found_model, send_manifest, get_manifest_stream,
}
use eamerald.Service.Model.Chunks.{concat, concat-chunks}
use eamerald.Sync.Manifest.{
  receive_manifest, no_metadata, set_remote_manifest, update_manifest, set_if_changed,
  sync_manifest, get_remote_manifest, local_metadata,
}

module _ {Model : Type 0} where
  receive-body_msgs :
      (bodies : List Bytes) (rest : List (GetManifestResponse Model)) (md : Metadata)
      (bytes : Bytes)
      → receive_manifest (body_msgs bodies ++ rest) md bytes
        ≡ receive_manifest rest md (bytes ++ concat bodies)
  unfolding receive_manifest
  receive-body_msgs [] rest md bytes = rw (append-nil bytes)
  receive-body_msgs (b ∷ bodies) rest md bytes =
      receive-body_msgs bodies rest md (bytes ++ b)
      ∙ ap (receive_manifest rest md) (append_assoc bytes b (concat bodies))

module _ {tx : ManifestTx} (ctx : ModelContext tx) where
  -- Behind the chunks comes the model, if any.
  receive-model_part :
      (s : tx.State) (rest : List (GetManifestResponse tx.Model)) (md : Metadata) (bytes : Bytes)
      → model_part tx ctx s ≡ ok rest
      → receive_manifest rest md bytes ≡ (md, bytes)
  unfolding receive_manifest model_part found_model
  receive-model_part s rest md bytes h = elim (Bool-cases ctx.with_model) [
    | inr off ↦ let same : ok [] ≡ ok rest = rw off at h in rw (← just_ok [] rest same)
    | inl on ↦ elim (Result-cases (get_model tx s)) [
      | inl (m, e) ↦
          let same : ok (model_msg m ∷ []) ≡ ok rest = rw (on, e) at h in
          rw (← just_ok (model_msg m ∷ []) rest same)
      | inr (x, e) ↦ elim (Bool-cases (is_not_found x)) [
        | inl missing ↦ absurd (cc (rw (on, e, missing) at h))
        | inr broken ↦ absurd (cc (rw (on, e, broken) at h))
      ]
    ]
  ]

  -- What a sync receives of a stream that GetManifest sent with the body is the metadata and the
  -- body of the stored manifest, cut into chunks of any positive size, provided that the request
  -- does not list its etag. A model that is sent along changes nothing.
  pub receive_manifest-get_manifest_stream :
      (n : ℕ) (s : tx.State) (m : Manifest) (msgs : List (GetManifestResponse tx.Model))
      → ctx.max_chunk_size ≡ suc n
      → ctx.with_body ≡ true
      → contains_etag ctx.if_none_match m.metadata.etag ≡ false
      → get_manifest tx s ≡ ok m
      → get_manifest_stream tx ctx s ≡ ok msgs
      → receive_manifest msgs no_metadata [] ≡ (m.metadata, m.body)
  unfolding get_manifest_stream or_empty send_manifest receive_manifest
  receive_manifest-get_manifest_stream n s m msgs size body fresh there h =
      elim (Result-cases ctx.get_manifest_request) [
        | inr (x, e) ↦ absurd (cc (rw e at h))
        | inl (u, e) ↦ elim (Result-cases (model_part tx ctx s)) [
          | inr (x, p) ↦ absurd (cc (rw (e, there, or_empty, send_manifest, fresh, p) at h))
          | inl (rest, p) ↦
              let sent : List (GetManifestResponse tx.Model) =
                metadata_msg m.metadata ∷ (body_msgs (chunks ctx.max_chunk_size m.body) ++ rest) in
              let same : ok sent ≡ ok msgs =
                rw (e, there, or_empty, send_manifest, fresh, p, body) at h in
              rw (← just_ok sent msgs same) (
                receive-body_msgs (chunks ctx.max_chunk_size m.body) rest m.metadata []
                ∙ ap (receive_manifest rest m.metadata)
                    (ap (λ k. concat (chunks k m.body)) size ∙ concat-chunks n m.body)
                ∙ receive-model_part s rest m.metadata m.body p)
        ]
      ]

  -- What a manifest that was set has.
  module _ (laws : ManifestLaws tx) where
    update_manifest-etag :
        (m : tx.Model) (md : Metadata) (bytes : Bytes) (s s' : tx.State)
        → update_manifest tx ctx m md bytes s ≡ (ok tt, s')
        → (found : Manifest) × (get_manifest tx s' ≡ ok found)
          × (found.metadata ≡ md)
          × (found.body ≡ bytes)
    unfolding update_manifest set_manifest set_model get_manifest exists_or_false
    update_manifest-etag m md bytes s s' h =
        let (_, mid, read, rest) =
          bind-ok (reads (ctx.can_update m))
            (λ _.
              with_error (set_manifest tx md bytes) unknown
              >> with_error (set_model tx ctx.with_metadata md m) unknown)
            s tt s' h in
        let (_, mid', stored, modelled) =
          bind-ok (with_error (set_manifest tx md bytes) unknown)
            (λ _. with_error (set_model tx ctx.with_metadata md m) unknown) mid tt s' rest in
        held mid mid' (with_error-ok (set_manifest tx md bytes) unknown mid tt mid' stored)
          (with_error-ok (set_model tx ctx.with_metadata md m) unknown mid' tt s' modelled)
      where
        held :
            (mid mid' : tx.State)
            → set_manifest tx md bytes mid ≡ (ok tt, mid')
            → set_model tx ctx.with_metadata md m mid' ≡ (ok tt, s')
            → (found : Manifest) × (get_manifest tx s' ≡ ok found)
              × (found.metadata ≡ md)
              × (found.body ≡ bytes)
        held mid mid' stored modelled =
            let ran : (set_model tx ctx.with_metadata md m mid').1 ≡ s' =
              ap (λ (p : Result (Unit {0}) × tx.State). p.1) modelled in
            let exists =
              ap tx.manifest_exists (sym ran)
              ∙ laws.exists-set_manifest_model (ctx.with_metadata md m) mid'
              ∙ laws.exists-set_manifest md bytes mid mid' stored in
            let metadata =
              ap tx.get_manifest_metadata (sym ran)
              ∙ laws.metadata-set_manifest_model (ctx.with_metadata md m) mid'
              ∙ laws.metadata-set_manifest md bytes mid mid' stored in
            let body =
              ap tx.get_manifest_body (sym ran)
              ∙ laws.body-set_manifest_model (ctx.with_metadata md m) mid'
              ∙ laws.body-set_manifest md bytes mid mid' stored in
            (_, rw (get_manifest, exists, exists_or_false, metadata, body) refl, refl, refl)

    settled_again :
        (remote : Metadata) (bytes : Bytes) (local : Metadata) (s : tx.State)
        (stream : Result (List (GetManifestResponse tx.Model) × Result (Unit {0})))
        → get_remote_manifest stream ≡ ok (remote, bytes)
        → local_metadata (get_manifest tx s) ≡ ok local
        → eqb local.etag remote.etag ≡ true
        → sync_manifest tx ctx stream s ≡ (ok none, s)
    unfolding sync_manifest set_if_changed
    settled_again remote bytes local s stream received there same = rw (received, there, same)

    set_remote_manifest-etag :
        (bytes : Bytes) (md : Metadata) (s s' : tx.State) (m : tx.Model)
        → set_remote_manifest tx ctx bytes md s ≡ (ok m, s')
        → local_metadata (get_manifest tx s') ≡ ok md
    unfolding set_remote_manifest local_metadata
    set_remote_manifest-etag bytes md s s' m h = elim (Result-cases (ctx.valid_metadata md)) [
      | inr (x, e) ↦ absurd (cc (rw e at h))
      | inl (u, e) ↦ elim (Result-cases (or_error (ctx.load bytes) invalid_argument)) [
        | inr (x, l) ↦ absurd (cc (rw (e, l) at h))
        | inl (loaded, l) ↦
            let (_, mid, ran, kept) =
              bind-ok (transact (update_manifest tx ctx loaded md bytes))
                (λ _. pure (ctx.with_metadata md loaded)) s m s' (rw (e, l) at h) in
            let same : mid ≡ s' = ap (λ (p : Result tx.Model × tx.State). p.1) kept in
            let (found, there, md_eq, _) =
              update_manifest-etag loaded md bytes s mid
                (transact-ok (update_manifest tx ctx loaded md bytes) s tt mid ran) in
            ap (λ t. local_metadata (get_manifest tx t)) (sym same)
            ∙ ap local_metadata there
            ∙ ap ok md_eq
      ]
    ]

    -- After a manifest sync that succeeds, another one with the same stream changes nothing and
    -- returns no model, provided that the remote etag is the hash of the remote body and that the
    -- store has the manifest that was set.
    pub sync_manifest-settled :
        (remote : Metadata) (bytes : Bytes) (s s' : tx.State) (m : Option tx.Model)
        (stream : Result (List (GetManifestResponse tx.Model) × Result (Unit {0})))
        → get_remote_manifest stream ≡ ok (remote, bytes)
        → remote.etag ≡ body_etag bytes
        → sync_manifest tx ctx stream s ≡ (ok m, s')
        → sync_manifest tx ctx stream s' ≡ (ok none, s')
    unfolding sync_manifest set_if_changed
    sync_manifest-settled remote bytes s s' m stream received same h =
        elim (Result-cases (local_metadata (get_manifest tx s))) [
          | inr (x, e) ↦ absurd (cc (rw (received, e) at h))
          | inl (local, e) ↦ elim (Bool-cases (eqb local.etag remote.etag)) [
            | inl equal ↦
                let ran : ◌≡◌ {A = Result (Option tx.Model) × tx.State} (ok none, s) (ok m, s') =
                  rw (received, e, equal) at h in
                let kept : s ≡ s' = ap (λ (p : Result (Option tx.Model) × tx.State). p.1) ran in
                settled_again remote bytes local s' stream received
                  (ap (λ t. local_metadata (get_manifest tx t)) (sym kept) ∙ e) equal
            | inr differs ↦
                let md : Metadata = record { updated_at = some ctx.now; etag = body_etag bytes } in
                let (set, mid, ran, kept) =
                  bind-ok (set_remote_manifest tx ctx bytes md) (λ new. pure (some new)) s m s'
                    (rw (received, e, differs) at h) in
                let there : mid ≡ s' = ap (λ (p : Result (Option tx.Model) × tx.State). p.1) kept in
                settled_again remote bytes md s' stream received
                  (ap (λ t. local_metadata (get_manifest tx t)) (sym there)
                    ∙ set_remote_manifest-etag bytes md s mid set ran)
                  (ap (eqb (body_etag bytes)) same ∙ eqb_refl (body_etag bytes))
          ]
        ]
