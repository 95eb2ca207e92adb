-- ===== src/Service/Reader/Written.antt =====
-- What a read of internal/eds/pkg/directory/v3/reader.go answers after a write of writer.go.
use eamerald.Base.{
  ◌≡◌, ◌≢◌, ◌⊎◌, ap, sym, ◌∙◌, List, [], ◌∷◌, some, true, false, Bool-cases, inl, inr,
}
use eamerald.Base.Bytes.{Bytes, eqb, eqb-eq, eqb_refl}
use eamerald.Base.Exec.{ok}
use eamerald.Data.{Object}
use eamerald.Store.Tx.{Tx, TxLaws}
use eamerald.Ds.Object.{patch_object_read}
use eamerald.Service.Context.{Context}
use eamerald.Service.Writer.{set_object_tx}
use eamerald.Service.Writer.Laws.{IsWritten, set_object-hash}
use eamerald.Service.Reader.{
  ReaderContext, GetObjectResponse, not_modified_response, contains_etag, read_object, get_object,
}

-- The answer for an object with an etag that a client may hold already.
abbrev pub fresh_object : Object → GetObjectResponse
fresh_object o = record {
  result = some (patch_object_read o);
  relations = [];
  not_modified = false;
}

-- The header lists the etag.
abbrev pub IsListed : Bytes → List Bytes → Type 0
IsListed etag [] = ⊥
IsListed etag (e ∷ etags) = (e ≡ etag) ⊎ IsListed etag etags

contains_etag-IsListed :
    (etags : List Bytes) (etag : Bytes) → contains_etag etags etag ≡ true → IsListed etag etags
unfolding contains_etag
contains_etag-IsListed [] etag h = absurd (cc h)
contains_etag-IsListed (e ∷ etags) etag h = elim (Bool-cases (eqb e etag)) [
  | inl same ↦ inl (eqb-eq e etag same)
  | inr distinct ↦ inr (contains_etag-IsListed etags etag (rw distinct at h))
]

contains_etag-unlisted :
    (etags : List Bytes) (etag : Bytes) → contains_etag etags etag ≡ false → ¬ IsListed etag etags
unfolding contains_etag
contains_etag-unlisted [] etag h x = elim x [ ]
contains_etag-unlisted (e ∷ etags) etag h (inl same) =
    let equal : eqb e etag ≡ true = ap (eqb e) (sym same) ∙ eqb_refl e in
    absurd (cc (rw equal at h))
contains_etag-unlisted (e ∷ etags) etag h (inr listed) = elim (Bool-cases (eqb e etag)) [
  | inl same ↦ absurd (cc (rw same at h))
  | inr distinct ↦ contains_etag-unlisted etags etag (rw distinct at h) listed
]

module _ (tx : Tx) (reader : ReaderContext) where
  -- The answer to a read of an object with an etag.
  abbrev pub IsAnswered : tx.State → Object → Object → Bytes → Type 0
  IsAnswered s o cur etag =
      (IsListed etag reader.if_none_match
        × (get_object tx reader o.type o.id false s ≡ ok not_modified_response))
      ⊎ ((¬ IsListed etag reader.if_none_match)
          × (get_object tx reader o.type o.id false s ≡ ok (fresh_object cur)))

module _ {tx : Tx} (laws : TxLaws tx) (ctx : Context) (reader : ReaderContext) where
  pub get_object-set_object :
      (o o' : Object) (s s' : tx.State)
      → ctx.object_hash o ≢ []
      → ((cur : Object) → tx.get_object o.type o.id s ≡ ok cur → cur.etag ≢ [])
      → reader.get_object_request o.type o.id ≡ ok tt
      → reader.model_identifier o.type o.id ≡ ok tt
      → set_object_tx tx ctx o s ≡ (ok o', s')
      → (cur : Object) × (cur.etag ≡ ctx.object_hash o)
        × (IsWritten ctx.now o cur ⊎ (s' ≡ s))
        × IsAnswered tx reader s' o cur (ctx.object_hash o)
  unfolding get_object read_object
  get_object-set_object o o' s s' hashed tagged valid in_model set =
      let (cur, there, tag, _, written) = set_object-hash tx ctx laws o o' s s' hashed tagged set in
      (cur, tag, written, answered cur there tag)
    where
      answered :
          (cur : Object)
          → tx.get_object o.type o.id s' ≡ ok cur
          → cur.etag ≡ ctx.object_hash o
          → IsAnswered tx reader s' o cur (ctx.object_hash o)
      answered cur there tag =
          elim (Bool-cases (contains_etag reader.if_none_match (ctx.object_hash o))) [
            | inl held ↦
                inl (contains_etag-IsListed _ _ held, rw (valid, in_model, there, tag, held))
            | inr new ↦ inr (contains_etag-unlisted _ _ new, rw (valid, in_model, there, tag, new))
          ]
