-- ===== src/Service/Writer/Laws.antt =====
-- What the writer of internal/eds/pkg/directory/v3/writer.go guarantees.
use eamerald.Base.{◌≡◌, ◌≢◌, refl, ap, sym, ◌∙◌, ◌⊎◌, [], some, arith, inl, inr, Bool-cases}
use eamerald.Base.Bytes.{Bytes, eqb_iff}
use eamerald.Base.Exec.{ok, is_not_found, reads, bind-ok, Result-cases}
use eamerald.Data.{Timestamp, Object}
use eamerald.Store.Tx.{Tx, TxLaws}
use eamerald.Ds.Metadata.{stored_etag, update_metadata_object}
use eamerald.Service.Context.{Context}
use eamerald.Service.Writer.{set_object_tx, put_object}

-- The object has what the request has, and the time of the request.
abbrev pub IsWritten : Timestamp → Object → Object → Type 0
IsWritten now o cur =
    (cur.type ≡ o.type)
    × (cur.id ≡ o.id)
    × (cur.display_name ≡ o.display_name)
    × (cur.properties ≡ o.properties)
    × (cur.updated_at ≡ some now)

module _ (tx : Tx) (ctx : Context) where
  -- A put that succeeds found the etag in place, or wrote the object with the new etag.
  put_object-cases :
      (etag : Bytes) (upd o' : Object) (s s' : tx.State)
      → put_object tx ctx etag upd s ≡ (ok o', s')
      → ((upd.etag ≡ etag) × (o' ≡ upd) × (s' ≡ s))
        ⊎ (tx.set_object (record upd { etag = etag }) s ≡ (ok o', s'))
  unfolding put_object
  put_object-cases etag upd o' s s' h = ground (arith, eqb_iff etag upd.etag)

  module _ (laws : TxLaws tx) where
    -- The object that a put wrote has the new etag and the timestamps of the metadata.
    written_object :
        (etag : Bytes) (upd o' : Object) (s s' : tx.State)
        → tx.set_object (record upd { etag = etag }) s ≡ (ok o', s')
        → (tx.get_object upd.type upd.id s' ≡ ok (record upd { etag = etag })) × (o'.etag ≡ etag)
    written_object etag upd o' s s' h = (
      laws.get_object-set_object _ o' s s' h,
      ap (λ (r : Object). r.etag) (laws.set_object-result _ o' s s' h),
    )

    -- The metadata keeps what the request has. Either the instance is there and has an etag, which the
    -- metadata takes over, or the etag is empty.
    abbrev Kept : Object → Object → tx.State → Type 0
    Kept o upd s =
        IsWritten ctx.now o upd
        × (((cur : Object) × (tx.get_object o.type o.id s ≡ ok cur)
              × (upd.etag ≡ stored_etag cur.etag o.etag))
            ⊎ (upd.etag ≡ []))

    update_metadata-Kept :
        (o upd : Object) (s : tx.State)
        → update_metadata_object tx ctx.now o s ≡ ok upd
        → Kept o upd s
    unfolding update_metadata_object
    update_metadata-Kept o upd s h = elim (Result-cases (tx.get_object o.type o.id s)) [
      | inl (cur, there) ↦ (
        (ground arith, ground arith, ground arith, ground arith, ground arith),
        inl (cur, there, ground arith),
      )
      | inr (e, missing) ↦ elim (Bool-cases (is_not_found e)) [
        | inl new ↦ (
          (ground arith, ground arith, ground arith, ground arith, ground arith),
          inr (ground arith),
        )
        | inr broken ↦ ground arith
      ]
    ]

    put_cases :
        (o upd o' : Object) (s s' : tx.State)
        → ctx.object_hash o ≢ []
        → ((cur : Object) → tx.get_object o.type o.id s ≡ ok cur → cur.etag ≢ [])
        → Kept o upd s
        → ((upd.etag ≡ ctx.object_hash o) × (o' ≡ upd) × (s' ≡ s))
          ⊎ (tx.set_object (record upd { etag = ctx.object_hash o }) s ≡ (ok o', s'))
        → (cur : Object) × (tx.get_object o.type o.id s' ≡ ok cur)
          × (cur.etag ≡ ctx.object_hash o)
          × (o'.etag ≡ ctx.object_hash o)
          × (IsWritten ctx.now o cur ⊎ (s' ≡ s))
    put_cases o upd o' s s' hashed tagged (w, inl (cur, there, kept)) (inl (same, o_eq, s_eq)) = (
      cur,
      rw s_eq there,
      ground (arith, tagged cur there, eqb_iff cur.etag []),
      rw o_eq same,
      inr s_eq,
    )
    put_cases o upd o' s s' hashed tagged (w, inr new) (inl (same, o_eq, s_eq)) =
        absurd (hashed (sym same ∙ new))
    put_cases o upd o' s s' hashed tagged ((t, i, d, p, u), _) (inr put) =
        let (stored, tag) = written_object (ctx.object_hash o) upd o' s s' put in
        (
          record upd { etag = ctx.object_hash o },
          renamed t i ∙ stored,
          refl,
          tag,
          inl (t, i, d, p, u),
        )
      where
        renamed :
            upd.type ≡ o.type
            → upd.id ≡ o.id
            → tx.get_object o.type o.id s' ≡ tx.get_object upd.type upd.id s'
        renamed t i = cc

    -- After the transaction of a set of an object succeeds, the object is stored under its type and
    -- id with the hash of the request as its etag, and the response carries that etag too. The
    -- stored object has the display name and properties of the request and the time of the write,
    -- unless the store is as it was, since the object had that hash already. This is provided that
    -- the hash is not empty and that an object that was stored there before had an etag.
    pub set_object-hash :
        (o o' : Object) (s s' : tx.State)
        → ctx.object_hash o ≢ []
        → ((cur : Object) → tx.get_object o.type o.id s ≡ ok cur → cur.etag ≢ [])
        → set_object_tx tx ctx o s ≡ (ok o', s')
        → (cur : Object) × (tx.get_object o.type o.id s' ≡ ok cur)
          × (cur.etag ≡ ctx.object_hash o)
          × (o'.etag ≡ ctx.object_hash o)
          × (IsWritten ctx.now o cur ⊎ (s' ≡ s))
    unfolding set_object_tx
    set_object-hash o o' s s' hashed tagged h =
        let (upd, mid, read, put) =
          bind-ok (reads (update_metadata_object tx ctx.now o))
            (put_object tx ctx (ctx.object_hash o)) s o' s' h in
        let same : mid ≡ s = cc in
        let found : update_metadata_object tx ctx.now o s ≡ ok upd = cc in
        put_cases o upd o' s s' hashed tagged (update_metadata-Kept o upd s found)
          (put_object-cases (ctx.object_hash o) upd o' s s' (rw same at put))
