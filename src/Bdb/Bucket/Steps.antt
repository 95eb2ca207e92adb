-- ===== src/Bdb/Bucket/Steps.antt =====
-- What a successful read or write of internal/eds/pkg/bdb/generic.go did to the store.
use eamerald.Base.{◌∙◌, [], ◌∷◌, ◌++◌, ◌≡◌, refl, true, false, ◌&&◌, none, some, arith, inl, inr}
use eamerald.Base.Bytes.{Bytes, eqb, eqb_refl}
use eamerald.Base.Exec.{Result, ok, err, key_not_found, Result-cases}
use eamerald.Bolt.{BucketPath, path_eq, Bolt, BoltLaws, Codec}
use eamerald.Bdb.Bucket.{
  set_bucket, set_bucket_from, set_bucket-ok, set_key, delete_key, set_message, get_message, writes,
}

path_eq_refl : (p : BucketPath) → path_eq p p ≡ true
unfolding path_eq
path_eq_refl [] = refl
path_eq_refl (p ∷ ps) = ground (arith, eqb_refl p, path_eq_refl ps)

module _ (bolt : Bolt) where
  open bolt use {Tx, get, put, remove}

  writes-ok : (f : Tx → Result Tx) (tx tx' : Tx) → writes bolt f tx ≡ (ok tt, tx') → f tx ≡ ok tx'
  writes-ok f tx tx' h = ground arith

  -- A write of one key that succeeds is one Put in the bucket of the path.
  pub set_key-ok :
      (path : BucketPath) (key v : Bytes) (tx tx' : Tx)
      → set_key bolt path key v tx ≡ (ok tt, tx')
      → put tx path key v ≡ ok tx'
  unfolding set_key
  set_key-ok path key v tx tx' h = elim (Result-cases (set_bucket bolt tx path)) [
    | inl (b, e) ↦
        ground (arith, set_bucket-ok bolt tx path b e, writes-ok (λ t. put t b key v) tx tx')
    | inr (e, p) ↦ ground arith
  ]

  pub delete_key-ok :
      (path : BucketPath) (key : Bytes) (tx tx' : Tx)
      → delete_key bolt path key tx ≡ (ok tt, tx')
      → remove tx path key ≡ ok tx'
  unfolding delete_key
  delete_key-ok path key tx tx' h = elim (Result-cases (set_bucket bolt tx path)) [
    | inl (b, e) ↦
        ground (arith, set_bucket-ok bolt tx path b e, writes-ok (λ t. remove t b key) tx tx')
    | inr (e, p) ↦ ground arith
  ]

  module _ {A : Type 0} (codec : Codec A) where
    pub set_message-ok :
        (path : BucketPath) (key : Bytes) (msg msg' : A) (tx tx' : Tx)
        → set_message bolt codec path key msg tx ≡ (ok msg', tx')
        → (v : Bytes) × (codec.marshal msg ≡ ok v) × (put tx path key v ≡ ok tx') × (msg' ≡ msg)
    unfolding set_message
    set_message-ok path key msg msg' tx tx' h = elim (Result-cases (codec.marshal msg)) [
      | inl (v, e) ↦ (v, e, ground (arith, set_key-ok path key v tx tx'), ground arith)
      | inr (e, p) ↦ ground arith
    ]

module _ {bolt : Bolt} (laws : BoltLaws bolt) where
  open bolt use {Tx, get, put, remove, has_bucket}

  set_bucket_from-same :
      (t u : Tx)
      → ((q : BucketPath) → has_bucket u q ≡ has_bucket t q)
      → (b path : BucketPath) → set_bucket_from bolt u b path ≡ set_bucket_from bolt t b path
  unfolding set_bucket_from
  set_bucket_from-same t u same b [] = refl
  set_bucket_from-same t u same b (p ∷ path) =
      ground (arith, same (b ++ p ∷ []), set_bucket_from-same t u same (b ++ p ∷ []) path)

  pub set_bucket-same :
      (t u : Tx)
      → ((q : BucketPath) → has_bucket u q ≡ has_bucket t q)
      → (path : BucketPath) → set_bucket bolt u path ≡ set_bucket bolt t path
  unfolding set_bucket
  set_bucket-same t u same [] = refl
  set_bucket-same t u same (p ∷ path) = set_bucket_from-same t u same [] (p ∷ path)

  -- A write that succeeds finds its bucket.
  pub set_key-bucket :
      (path : BucketPath) (key v : Bytes) (tx tx' : Tx)
      → set_key bolt path key v tx ≡ (ok tt, tx')
      → set_bucket bolt tx path ≡ ok path
  unfolding set_key
  set_key-bucket path key v tx tx' h = elim (Result-cases (set_bucket bolt tx path)) [
    | inl (b, e) ↦ rw (set_bucket-ok bolt tx path b e) at e
    | inr (e, p) ↦ ground arith
  ]

  module _ {A : Type 0} (codec : Codec A) where
    -- A read depends on the bucket's being there and on the bytes under its key.
    get_message-same :
        (t u : Tx) (q : BucketPath) (j : Bytes)
        → ((p : BucketPath) → has_bucket u p ≡ has_bucket t p)
        → get u q j ≡ get t q j
        → get_message bolt codec u q j ≡ get_message bolt codec t q j
    unfolding get_message
    get_message-same t u q j same e = elim (Result-cases (set_bucket bolt t q)) [
      | inl (b, h) ↦ rw (set_bucket-same t u same q, h) (rw (set_bucket-ok bolt t q b h) (rw e))
      | inr (f, h) ↦ rw (set_bucket-same t u same q, h)
    ]

    -- A write or a delete under another key, or in another bucket, leaves a read as it was.
    pub get_message-put_ne :
        (t u : Tx) (p : BucketPath) (k v : Bytes) (q : BucketPath) (j : Bytes)
        → put t p k v ≡ ok u
        → (path_eq p q && eqb k j) ≡ false
        → get_message bolt codec u q j ≡ get_message bolt codec t q j
    get_message-put_ne t u p k v q j e other =
        get_message-same t u q j (λ r. laws.has_bucket-put t p k v u r e)
          (laws.get-put t p k v u q j e ∙ rw other)

    pub get_message-remove_ne :
        (t u : Tx) (p : BucketPath) (k : Bytes) (q : BucketPath) (j : Bytes)
        → remove t p k ≡ ok u
        → (path_eq p q && eqb k j) ≡ false
        → get_message bolt codec u q j ≡ get_message bolt codec t q j
    get_message-remove_ne t u p k q j e other =
        get_message-same t u q j (λ r. laws.has_bucket-remove t p k u r e)
          (laws.get-remove t p k u q j e ∙ rw other)

    pub set_message-bucket :
        (p : BucketPath) (k : Bytes) (m m' : A) (t u : Tx)
        → set_message bolt codec p k m t ≡ (ok m', u)
        → set_bucket bolt t p ≡ ok p
    unfolding set_message
    set_message-bucket p k m m' t u h = elim (Result-cases (codec.marshal m)) [
      | inl (v, e) ↦ ground (arith, set_key-bucket p k v t u)
      | inr (e, f) ↦ ground arith
    ]

    delete_key-bucket :
        (p : BucketPath) (k : Bytes) (t u : Tx)
        → delete_key bolt p k t ≡ (ok tt, u)
        → set_bucket bolt t p ≡ ok p
    unfolding delete_key
    delete_key-bucket p k t u h = elim (Result-cases (set_bucket bolt t p)) [
      | inl (b, e) ↦ rw (set_bucket-ok bolt t p b e) at e
      | inr (e, f) ↦ ground arith
    ]

    -- A read after a write that succeeded gives what was written.
    pub get_message-set_message :
        (p : BucketPath) (k : Bytes) (m m' : A) (t u : Tx)
        → set_message bolt codec p k m t ≡ (ok m', u)
        → get_message bolt codec u p k ≡ ok m
    unfolding get_message
    get_message-set_message p k m m' t u h =
        let (v, written, put_ok, _) = set_message-ok bolt codec p k m m' t u h in
        let there =
          set_bucket-same t u (λ q. laws.has_bucket-put t p k v u q put_ok) p
          ∙ set_message-bucket p k m m' t u h in
        let stored : get u p k ≡ some v =
          laws.get-put t p k v u p k put_ok ∙ rw (path_eq_refl p, eqb_refl k) in
        rw there (rw stored (codec.unmarshal-marshal m v written))

    -- A read after a delete finds no key.
    pub get_message-delete_key :
        (p : BucketPath) (k : Bytes) (t u : Tx)
        → delete_key bolt p k t ≡ (ok tt, u)
        → get_message bolt codec u p k ≡ err key_not_found
    unfolding get_message
    get_message-delete_key p k t u h =
        let removed = delete_key-ok bolt p k t u h in
        let there =
          set_bucket-same t u (λ q. laws.has_bucket-remove t p k u q removed) p
          ∙ delete_key-bucket p k t u h in
        let gone : get u p k ≡ none =
          laws.get-remove t p k u p k removed ∙ rw (path_eq_refl p, eqb_refl k) in
        rw there (rw gone)
