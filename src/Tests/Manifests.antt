-- ===== src/Tests/Manifests.antt =====
-- Runs of the theorems on the manifest.
use eamerald.Base.{
  ℕ, ◌≡◌, refl, sym, ap, Option-cases, inl, inr, Bool, true, false, Option, none, some, List, [],
  ◌∷◌,
}
use eamerald.Base.Bytes.{Bytes, codes}
use eamerald.Base.Exec.{Result, Result-map, ok, err, key_not_found, unknown}
use eamerald.Base.Int.{pos}
use eamerald.Data.{Timestamp}
use eamerald.Bolt.{Codec}
use eamerald.Store.Manifest.{Metadata, ManifestTx, ManifestLaws}
use eamerald.Ds.Manifest.{Manifest, offset64, write_hash, body_etag}
use eamerald.Service.Model.{
  GetManifestResponse, metadata_msg, body_msg, ModelContext, receive_bodies, get_manifest_stream,
}
use eamerald.Service.Model.Chunks.{concat}
use eamerald.Service.Model.Chunked.{prefixes, receive_bodies-prefixes}
use eamerald.Sync.Manifest.{receive_manifest, no_metadata, get_remote_manifest, sync_manifest}
use eamerald.Sync.Manifest.Settled.{receive_manifest-get_manifest_stream, sync_manifest-settled}
use eamerald.Bdb.Manifest.Implements.{bdb_manifest_tx, bdb_manifest_tx-ManifestLaws}
use eamerald.Tests.Memory.{memory, memory_laws}

-- A store of one manifest, without a model.
abbrev has_manifest : Option Manifest → Bool
has_manifest none = false
has_manifest (some m) = true

abbrev stored_metadata : Option Manifest → Result Metadata
stored_metadata none = err key_not_found
stored_metadata (some m) = ok m.metadata

abbrev stored_body : Option Manifest → Result Bytes
stored_body none = err key_not_found
stored_body (some m) = ok m.body

abbrev one_manifest : ManifestTx
one_manifest = record {
  State = Option Manifest;
  Model = Bytes;
  manifest_exists = λ s. ok (has_manifest s);
  get_manifest_metadata = stored_metadata;
  get_manifest_body = stored_body;
  get_manifest_model = λ s. err key_not_found;
  set_manifest = λ md bytes s. (ok tt, some (record { metadata = md; body = bytes }));
  set_manifest_model = λ m s. (ok tt, s);
  delete_manifest = λ s. (ok tt, none);
}

abbrev Ran : Type 0
Ran = Result (Unit {0}) × Option Manifest

abbrev put : Metadata → Bytes → Option Manifest
put md bytes = some (record { metadata = md; body = bytes })

one_manifest-ManifestLaws : ManifestLaws one_manifest
one_manifest-ManifestLaws = record {
  exists-set_manifest = λ md bytes s s' h. ap (λ (p : Ran). ok (has_manifest p.1)) (sym h);
  metadata-set_manifest = λ md bytes s s' h. ap (λ (p : Ran). stored_metadata p.1) (sym h);
  body-set_manifest = λ md bytes s s' h. ap (λ (p : Ran). stored_body p.1) (sym h);
  exists-set_manifest_model = λ m s. refl;
  metadata-set_manifest_model = λ m s. refl;
  body-set_manifest_model = λ m s. refl;
}

abbrev in_chunks_of_two : ModelContext one_manifest
in_chunks_of_two = record {
  get_manifest_request = ok tt;
  delete_manifest_request = ok tt;
  valid_body = λ b. ok tt;
  valid_metadata = λ md. ok tt;
  if_match = [];
  if_none_match = [];
  with_body = true;
  with_model = false;
  now = record { seconds = pos 7; nanos = pos 0 };
  max_chunk_size = 2;
  load = λ bytes. ok bytes;
  can_update = λ m s. ok tt;
  with_metadata = λ md m. m;
  cached_etag = [];
}

abbrev manifest : Manifest
manifest = record { metadata = record { updated_at = none; etag = codes "e" }; body = codes "abc" }

abbrev streamed : List (GetManifestResponse Bytes)
streamed = metadata_msg manifest.metadata ∷ body_msg (codes "ab") ∷ body_msg (codes "c") ∷ []

receive_manifest-get_manifest_stream_example :
    receive_manifest streamed no_metadata [] ≡ (manifest.metadata, manifest.body)
unfolding eamerald.Service.Reader.contains_etag get_manifest_stream
receive_manifest-get_manifest_stream_example =
    receive_manifest-get_manifest_stream in_chunks_of_two 1 (some manifest) manifest streamed refl
      refl fresh refl sent
  where
    fresh : eamerald.Service.Reader.contains_etag [] (codes "e") ≡ false
    fresh = refl

    sent : get_manifest_stream one_manifest in_chunks_of_two (some manifest) ≡ ok streamed
    sent = refl

-- A remote manifest whose etag is its hash.
abbrev remote : Metadata
remote = record { updated_at = none; etag = body_etag (codes "a") }

abbrev remote_stream : Result (List (GetManifestResponse Bytes) × Result (Unit {0}))
remote_stream = ok (metadata_msg remote ∷ body_msg (codes "a") ∷ [], ok tt)

abbrev synced : Result (Option Bytes) × Option Manifest
synced = sync_manifest one_manifest in_chunks_of_two remote_stream none

sync_manifest-settled_example :
    sync_manifest one_manifest in_chunks_of_two remote_stream synced.1 ≡ (ok none, synced.1)
unfolding get_remote_manifest sync_manifest eamerald.Base.Bytes.eqb
sync_manifest-settled_example =
    sync_manifest-settled in_chunks_of_two one_manifest-ManifestLaws remote (codes "a") none
      synced.1 (some (codes "a")) remote_stream received refl ran
  where
    received : get_remote_manifest remote_stream ≡ ok (remote, codes "a")
    received = refl

    ran :
        sync_manifest one_manifest in_chunks_of_two remote_stream none
        ≡ (ok (some (codes "a")), synced.1)
    ran = refl

-- Two bodies are hashed as the three letters `a`, `a`, `b`.
receive_bodies-prefixes_example :
    (codes "ab" ≡ concat (codes "a" ∷ codes "b" ∷ []))
    × (write_hash offset64 (codes "aab")
        ≡ write_hash offset64 (concat (prefixes [] (codes "a" ∷ codes "b" ∷ []))))
unfolding receive_bodies
receive_bodies-prefixes_example =
    receive_bodies-prefixes (λ b. ok tt) (codes "a" ∷ codes "b" ∷ []) (codes "ab")
      (write_hash offset64 (codes "aab")) received
  where
    received :
        receive_bodies (λ b. ok tt) (codes "a" ∷ codes "b" ∷ []) [] offset64
        ≡ ok (codes "ab", write_hash offset64 (codes "aab"))
    received = refl

-- Codecs of bytes as they are, and of metadata without a time.
abbrev bytes_codec : Codec Bytes
bytes_codec = record {
  marshal = λ b. ok b;
  unmarshal = λ v. ok v;
  unmarshal-marshal = λ a v h. sym h;
}

abbrev untimed_etag : Bytes → Option Timestamp → Result Bytes
untimed_etag etag none = ok etag
untimed_etag etag (some ts) = err unknown

abbrev marshal_untimed : Metadata → Result Bytes
marshal_untimed md = untimed_etag md.etag md.updated_at

abbrev untimed_metadata : Bytes → Metadata
untimed_metadata v = record { updated_at = none; etag = v }

untimed :
    (u : Option Timestamp) (etag v : Bytes)
    → untimed_etag etag u ≡ ok v
    → ok (untimed_metadata v) ≡ ok (record { updated_at = u; etag = etag })
untimed none etag v h = ap (Result-map untimed_metadata) (sym h)
untimed (some ts) etag v h = absurd (cc h)

bdb_manifest_tx-ManifestLaws_example : ManifestLaws (
    bdb_manifest_tx memory (record {
      Model = Bytes;
      metadata = record {
        marshal = marshal_untimed;
        unmarshal = λ v. ok (untimed_metadata v);
        unmarshal-marshal = λ md v h. untimed md.updated_at md.etag v h;
      };
      body = bytes_codec;
      model = bytes_codec;
    }))
bdb_manifest_tx-ManifestLaws_example = bdb_manifest_tx-ManifestLaws memory_laws _
