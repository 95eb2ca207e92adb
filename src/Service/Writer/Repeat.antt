-- ===== src/Service/Writer/Repeat.antt =====
-- Repeated requests to the writer of internal/eds/pkg/directory/v3/writer.go.
use eamerald.Base.{◌≡◌, ◌≢◌, [], some, arith}
use eamerald.Base.Bytes.{Bytes, eqb, eqb_iff}
use eamerald.Base.Exec.{ok}
use eamerald.Data.{Object}
use eamerald.Store.Tx.{Tx, TxLaws}
use eamerald.Ds.Metadata.{stored_etag}
use eamerald.Service.Context.{Context}
use eamerald.Service.Writer.{set_object_tx, put_object}
use eamerald.Service.Writer.Laws.{set_object-hash}

module _ (tx : Tx) (ctx : Context) where
  -- An object that has its etag already is not written.
  put_object-unchanged :
      (etag : Bytes) (upd : Object) (s : tx.State)
      → ctx.if_match ≡ []
      → upd.etag ≡ etag
      → put_object tx ctx etag upd s ≡ (ok upd, s)
  unfolding put_object eqb
  put_object-unchanged etag upd s free same = ground (arith, eqb_iff etag upd.etag)

  set_object-unchanged :
      (o cur : Object) (s : tx.State)
      → ctx.if_match ≡ []
      → ctx.object_hash o ≢ []
      → tx.get_object o.type o.id s ≡ ok cur
      → cur.etag ≡ ctx.object_hash o
      → (o' : Object) × (set_object_tx tx ctx o s ≡ (ok o', s)) × (o'.etag ≡ ctx.object_hash o)
  unfolding set_object_tx
  set_object-unchanged o cur s free hashed there same =
      let kept : stored_etag cur.etag o.etag ≡ ctx.object_hash o =
        ground (arith, eqb_iff cur.etag []) in
      let upd : Object = record o {
        created_at = cur.created_at;
        updated_at = some ctx.now;
        etag = stored_etag cur.etag o.etag;
      } in
      (upd, rw there (put_object-unchanged (ctx.object_hash o) upd s free kept), kept)

  -- When the transaction of a set of an object has succeeded for a request without an If-Match
  -- header, the same request again succeeds, writes nothing, and returns the object with the same
  -- etag, provided that the hash is not empty and that an object that was stored there before had
  -- an etag.
  pub set_object-repeated :
      (laws : TxLaws tx) (o o' : Object) (s s' : tx.State)
      → ctx.if_match ≡ []
      → ctx.object_hash o ≢ []
      → ((cur : Object) → tx.get_object o.type o.id s ≡ ok cur → cur.etag ≢ [])
      → set_object_tx tx ctx o s ≡ (ok o', s')
      → (o'' : Object) × (set_object_tx tx ctx o s' ≡ (ok o'', s')) × (o''.etag ≡ ctx.object_hash o)
  set_object-repeated laws o o' s s' free hashed tagged h =
      let (cur, there, same, _, _) = set_object-hash tx ctx laws o o' s s' hashed tagged h in
      set_object-unchanged o cur s' free hashed there same
