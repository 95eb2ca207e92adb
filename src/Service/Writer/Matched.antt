-- ===== src/Service/Writer/Matched.antt =====
-- The optimistic concurrency checks of internal/eds/pkg/directory/v3/writer.go.
use eamerald.Base.{◌≡◌, ◌≢◌, sym, ◌∙◌, [], arith}
use eamerald.Base.Bytes.{Bytes, eqb_iff}
use eamerald.Base.Exec.{
  Result, ok, err, Exec, transact, lift, reads, pure, ◌>>◌, bind-ok, transact-ok,
}
use eamerald.Data.{Object, Relation, RelationIdentifier}
use eamerald.Store.Tx.{Tx}
use eamerald.Ds.Metadata.{update_metadata_object, update_metadata_relation}
use eamerald.Service.Context.{Context}
use eamerald.Service.Writer.{
  set_object_tx, set_object, put_object, check_object_etag, delete_object_tx, delete_object,
  put_relation, set_relation_tx, set_relation, check_relation_etag, delete_relation_tx,
  delete_relation, Request, sets_object, deletes_object, sets_relation, deletes_relation, perform,
}

module _ (tx : Tx) (ctx : Context) where
  -- What the request is about is stored, with this etag.
  abbrev pub HasEtag : Request → tx.State → Bytes → Type 0
  HasEtag (sets_object o) s etag =
      (cur : Object) × (tx.get_object o.type o.id s ≡ ok cur) × (cur.etag ≡ etag)
  HasEtag (deletes_object t i w) s etag =
      (cur : Object) × (tx.get_object t i s ≡ ok cur) × (cur.etag ≡ etag)
  HasEtag (sets_relation r) s etag =
      (cur : Relation) × (tx.get_relation_exact r.ident s ≡ ok cur) × (cur.etag ≡ etag)
  HasEtag (deletes_relation i) s etag =
      (cur : Relation) × (tx.get_relation_exact i s ≡ ok cur) × (cur.etag ≡ etag)

  guarded-ok {ℓ} :
      {A : Type ℓ} (a c : Result (Unit {0})) (m : Exec tx.State A) (s : tx.State) (x : A)
      (t : tx.State)
      → (lift a >> (lift c >> transact m)) s ≡ (ok x, t)
      → m s ≡ (ok x, t)
  guarded-ok (err e) c m s x t h = absurd (cc h)
  guarded-ok (ok u) (err e) m s x t h = absurd (cc h)
  guarded-ok (ok u) (ok w) m s x t h = transact-ok m s x t h

  put_object-matched :
      (etag : Bytes) (upd o' : Object) (s s' : tx.State)
      → ctx.if_match ≢ []
      → upd.etag ≢ []
      → put_object tx ctx etag upd s ≡ (ok o', s')
      → ctx.if_match ≡ upd.etag
  unfolding put_object
  put_object-matched etag upd o' s s' a b h =
      ground (arith, eqb_iff ctx.if_match [], eqb_iff upd.etag [], eqb_iff ctx.if_match upd.etag)

  put_relation-matched :
      (etag : Bytes) (upd r' : Relation) (s s' : tx.State)
      → ctx.if_match ≢ []
      → upd.etag ≢ []
      → put_relation tx ctx etag upd s ≡ (ok r', s')
      → ctx.if_match ≡ upd.etag
  unfolding put_relation
  put_relation-matched etag upd o' s s' a b h =
      ground (arith, eqb_iff ctx.if_match [], eqb_iff upd.etag [], eqb_iff ctx.if_match upd.etag)

  -- The metadata takes the etag over.
  updated_object-etag :
      (o cur upd : Object) (s : tx.State)
      → tx.get_object o.type o.id s ≡ ok cur
      → cur.etag ≢ []
      → update_metadata_object tx ctx.now o s ≡ ok upd
      → upd.etag ≡ cur.etag
  unfolding update_metadata_object
  updated_object-etag o cur upd s there tagged h = ground (arith, eqb_iff cur.etag [])

  updated_relation-etag :
      (r cur upd : Relation) (s : tx.State)
      → tx.get_relation_exact r.ident s ≡ ok cur
      → cur.etag ≢ []
      → update_metadata_relation tx ctx.now r s ≡ ok upd
      → upd.etag ≡ cur.etag
  unfolding update_metadata_relation
  updated_relation-etag r cur upd s there tagged h = ground (arith, eqb_iff cur.etag [])

  set_object_tx-matched :
      (o o' cur : Object) (s s' : tx.State)
      → ctx.if_match ≢ []
      → tx.get_object o.type o.id s ≡ ok cur
      → cur.etag ≢ []
      → set_object_tx tx ctx o s ≡ (ok o', s')
      → ctx.if_match ≡ cur.etag
  unfolding set_object_tx
  set_object_tx-matched o o' cur s s' a there b h =
      let (upd, mid, read, put) =
        bind-ok (reads (update_metadata_object tx ctx.now o))
          (put_object tx ctx (ctx.object_hash o)) s o' s' h in
      let taken : upd.etag ≡ cur.etag = updated_object-etag o cur upd s there b cc in
      put_object-matched (ctx.object_hash o) upd o' mid s' a (λ e. b (sym taken ∙ e)) put ∙ taken

  set_relation_tx-matched :
      (r r' cur : Relation) (s s' : tx.State)
      → ctx.if_match ≢ []
      → tx.get_relation_exact r.ident s ≡ ok cur
      → cur.etag ≢ []
      → set_relation_tx tx ctx r s ≡ (ok r', s')
      → ctx.if_match ≡ cur.etag
  unfolding set_relation_tx
  set_relation_tx-matched r r' cur s s' a there b h =
      let (upd, mid, read, put) =
        bind-ok (reads (update_metadata_relation tx ctx.now r))
          (put_relation tx ctx (ctx.relation_hash r.ident)) s r' s' h in
      let taken : upd.etag ≡ cur.etag = updated_relation-etag r cur upd s there b cc in
      put_relation-matched (ctx.relation_hash r.ident) upd r' mid s' a (λ e. b (sym taken ∙ e)) put
      ∙ taken

  check_object_etag-matched :
      (t i : Bytes) (cur : Object) (s s' : tx.State)
      → ctx.if_match ≢ []
      → tx.get_object t i s ≡ ok cur
      → cur.etag ≢ []
      → check_object_etag tx ctx t i s ≡ (ok tt, s')
      → ctx.if_match ≡ cur.etag
  unfolding check_object_etag update_metadata_object
  check_object_etag-matched t i cur s s' a there b h =
      ground (arith, eqb_iff ctx.if_match [], eqb_iff cur.etag [], eqb_iff ctx.if_match cur.etag)

  check_relation_etag-matched :
      (i : RelationIdentifier) (cur : Relation) (s s' : tx.State)
      → ctx.if_match ≢ []
      → tx.get_relation_exact i s ≡ ok cur
      → cur.etag ≢ []
      → check_relation_etag tx ctx i s ≡ (ok tt, s')
      → ctx.if_match ≡ cur.etag
  unfolding check_relation_etag update_metadata_relation
  check_relation_etag-matched i cur s s' a there b h =
      ground (arith, eqb_iff ctx.if_match [], eqb_iff cur.etag [], eqb_iff ctx.if_match cur.etag)

  -- No update is lost: when a set or a delete of an object or a relation succeeds for a client that
  -- sends an If-Match header, and what it is about is stored with an etag that is not empty, the
  -- header is that etag.
  pub perform-matched :
      (r : Request) (s s' : tx.State) (etag : Bytes)
      → ctx.if_match ≢ []
      → HasEtag r s etag
      → etag ≢ []
      → perform tx ctx r s ≡ (ok tt, s')
      → ctx.if_match ≡ etag
  unfolding perform set_object delete_object set_relation delete_relation delete_object_tx
      delete_relation_tx
  perform-matched (sets_object o) s s' etag a (cur, there, same) b h =
      let (o', mid, set, _) = bind-ok (set_object tx ctx o) (λ _. pure tt) s tt s' h in
      set_object_tx-matched o o' cur s mid a there (λ e. b (sym same ∙ e))
        (guarded-ok (ctx.set_object_request o) (ctx.model_object o) (set_object_tx tx ctx o) s o'
          mid set)
      ∙ same
  perform-matched (sets_relation r) s s' etag a (cur, there, same) b h =
      let (r', mid, set, _) = bind-ok (set_relation tx ctx r) (λ _. pure tt) s tt s' h in
      set_relation_tx-matched r r' cur s mid a there (λ e. b (sym same ∙ e))
        (guarded-ok (ctx.set_relation_request r) (ctx.model_relation r.ident)
          (set_relation_tx tx ctx r) s r' mid set)
      ∙ same
  perform-matched (deletes_object t i w) s s' etag a (cur, there, same) b h =
      let (u, mid, checked, _) = bind-ok (check_object_etag tx ctx t i) _ s tt s' (
        guarded-ok (ctx.delete_object_request t i) (ctx.model_object_identifier t i)
          (delete_object_tx tx ctx t i w) s tt s' h) in
      check_object_etag-matched t i cur s mid a there (λ e. b (sym same ∙ e)) checked ∙ same
  perform-matched (deletes_relation i) s s' etag a (cur, there, same) b h =
      let (u, mid, checked, _) = bind-ok (check_relation_etag tx ctx i) _ s tt s' (
        guarded-ok (ctx.delete_relation_request i) (ctx.model_relation i)
          (delete_relation_tx tx ctx i) s tt s' h) in
      check_relation_etag-matched i cur s mid a there (λ e. b (sym same ∙ e)) checked ∙ same
