-- ===== src/Bdb/Bucket.antt =====
-- internal/eds/pkg/bdb/boltdb.go, path.go and generic.go: bucket paths and typed keys.
pub mod Steps
pub mod Frame
use mathlib.Core.List.{append-nil, append_assoc}
use eamerald.Base.{
  ◌≡◌, arith, ◌++◌, Bool, true, false, Option, none, some, List, [], ◌∷◌, if◌then◌else◌,
}
use eamerald.Base.Bytes.{Bytes, codes}
use eamerald.Base.Exec.{
  Error, Result, Exec, ok, err, path_not_found, key_not_found, bucket_not_found, bind_result,
  Result-map, ◌>>=◌, pure,
}
use eamerald.Bolt.{BucketPath, Entry, Bolt, Codec}

abbrev pub system_path : BucketPath
system_path = codes "_system" ∷ []

abbrev pub manifest_path : BucketPath
manifest_path = codes "_manifest" ∷ codes "default" ∷ []

abbrev pub objects_path : BucketPath
objects_path = codes "objects" ∷ []

abbrev pub relations_sub_path : BucketPath
relations_sub_path = codes "relations_sub" ∷ []

abbrev pub relations_obj_path : BucketPath
relations_obj_path = codes "relations_obj" ∷ []

abbrev pub metadata_key : Bytes
metadata_key = codes "metadata"

abbrev pub body_key : Bytes
body_key = codes "body"

abbrev pub model_key : Bytes
model_key = codes "model"

module _ (bolt : Bolt) where
  open bolt use {
    Tx, has_bucket, create_bucket_if_not_exists, delete_bucket as bolt_delete_bucket, get, put,
    remove, first,
  }

  -- The loop of SetBucket: `b` is the handle so far, and each name must be a bucket in it.
  set_bucket_from : Tx → BucketPath → BucketPath → Result BucketPath
  set_bucket_from tx b [] = ok b
  set_bucket_from tx b (p ∷ path) =
      if has_bucket tx (b ++ p ∷ [])
      then set_bucket_from tx (b ++ p ∷ []) path
      else err path_not_found

  unfoldable pub set_bucket : Tx → BucketPath → Result BucketPath
  unfolding set_bucket_from
  set_bucket tx [] = err path_not_found
  set_bucket tx (p ∷ path) = set_bucket_from tx [] (p ∷ path)

  set_bucket_from-error :
      (tx : Tx) (b path : BucketPath) (e : Error)
      → set_bucket_from tx b path ≡ err e
      → e ≡ path_not_found
  unfolding set_bucket_from
  set_bucket_from-error tx b [] e h = cc
  set_bucket_from-error tx b (p ∷ path) e h =
      ground (arith, set_bucket_from-error tx (b ++ p ∷ []) path e)

  -- The only error of SetBucket is that the path is not there.
  pub set_bucket-error :
      (tx : Tx) (path : BucketPath) (e : Error) → set_bucket tx path ≡ err e → e ≡ path_not_found
  unfolding set_bucket
  set_bucket-error tx [] e h = cc
  set_bucket-error tx (p ∷ path) e h = set_bucket_from-error tx [] (p ∷ path) e h

  set_bucket_from-ok :
      (tx : Tx) (b path c : BucketPath) → set_bucket_from tx b path ≡ ok c → c ≡ b ++ path
  unfolding set_bucket_from
  set_bucket_from-ok tx b [] c h = ground (arith, append-nil b)
  set_bucket_from-ok tx b (p ∷ path) c h =
      ground (arith, set_bucket_from-ok tx (b ++ p ∷ []) path c, append_assoc b (p ∷ []) path)

  -- The handle of a bucket is its path.
  pub set_bucket-ok : (tx : Tx) (path b : BucketPath) → set_bucket tx path ≡ ok b → b ≡ path
  unfolding set_bucket
  set_bucket-ok tx [] b h = cc
  set_bucket-ok tx (p ∷ path) b h = set_bucket_from-ok tx [] (p ∷ path) b h

  create_bucket_from : BucketPath → BucketPath → Exec Tx (Unit {0})
  create_bucket_from b [] tx = (ok tt, tx)
  create_bucket_from b (p ∷ path) tx = elim (create_bucket_if_not_exists tx (b ++ p ∷ [])) [
    | ok tx' ↦ create_bucket_from (b ++ p ∷ []) path tx'
    | err e ↦ (err e, tx)
  ]

  unfoldable pub create_bucket : BucketPath → Exec Tx (Unit {0})
  unfolding create_bucket_from
  create_bucket path = create_bucket_from [] path

  -- An operation of bbolt that changes the transaction, or fails and leaves it.
  abbrev pub writes : (Tx → Result Tx) → Exec Tx (Unit {0})
  writes f tx = elim (f tx) [ ok tx' ↦ (ok tt, tx') | err e ↦ (err e, tx) ]

  -- `berr.ErrBucketNotFound` is no failure of a delete.
  abbrev delete_result : Tx → Result Tx → Result (Unit {0}) × Tx
  delete_result tx (ok tx') = (ok tt, tx')
  delete_result tx (err bucket_not_found) = (ok tt, tx)
  delete_result tx (err e) = (err e, tx)

  -- All but the last name of a path.
  abbrev init : BucketPath → BucketPath
  init [] = []
  init (p ∷ []) = []
  init (p ∷ q ∷ path) = p ∷ init (q ∷ path)

  unfoldable pub delete_bucket : BucketPath → Exec Tx (Unit {0})
  unfolding set_bucket
  delete_bucket [] tx = (ok tt, tx)
  delete_bucket (p ∷ []) tx = delete_result tx (bolt_delete_bucket tx (p ∷ []))
  delete_bucket (p ∷ q ∷ path) tx = elim (set_bucket tx (init (p ∷ q ∷ path))) [
    | err e ↦ (ok tt, tx)
    | ok b ↦ delete_result tx (bolt_delete_bucket tx (p ∷ q ∷ path))
  ]

  unfoldable pub bucket_exists : Tx → BucketPath → Result Bool
  unfolding set_bucket
  bucket_exists tx path = elim (set_bucket tx path) [
    | ok b ↦ ok true
    | err path_not_found ↦ ok false
    | err e ↦ err e
  ]

  unfoldable pub set_key : BucketPath → Bytes → Bytes → Exec Tx (Unit {0})
  unfolding set_bucket
  set_key path key value tx = elim (set_bucket tx path) [
    | ok b ↦ writes (λ t. put t b key value) tx
    | err e ↦ (err e, tx)
  ]

  unfoldable pub delete_key : BucketPath → Bytes → Exec Tx (Unit {0})
  unfolding set_bucket
  delete_key path key tx = elim (set_bucket tx path) [
    | ok b ↦ writes (λ t. remove t b key) tx
    | err e ↦ (err e, tx)
  ]

  abbrev found : Option Bytes → Result Bytes
  found none = err key_not_found
  found (some v) = ok v

  unfoldable pub get_key : Tx → BucketPath → Bytes → Result Bytes
  unfolding set_bucket
  get_key tx path key = bind_result (set_bucket tx path) (λ b. found (get tx b key))

  abbrev is_some : Option Bytes → Bool
  is_some none = false
  is_some (some v) = true

  unfoldable pub key_exists : Tx → BucketPath → Bytes → Result Bool
  unfolding set_bucket
  key_exists tx path key = Result-map (λ b. is_some (get tx b key)) (set_bucket tx path)

  module _ {A : Type 0} (codec : Codec A) where
    open codec use {marshal, unmarshal}

    unfoldable pub get_message : Tx → BucketPath → Bytes → Result A
    unfolding get_key
    get_message tx path key = bind_result (get_key tx path key) unmarshal

    unfoldable pub set_message : BucketPath → Bytes → A → Exec Tx A
    unfolding set_key
    set_message path key msg tx = elim (marshal msg) [
      | err e ↦ (err e, tx)
      | ok buf ↦ (set_key path key buf >>= λ _. pure msg) tx
    ]

    unmarshal_all : List Entry → Result (List A)
    unmarshal_all [] = ok []
    unmarshal_all ((key, value) ∷ es) =
        bind_result (unmarshal value) (λ i. Result-map (λ is. i ∷ is) (unmarshal_all es))

    -- The loop `for key, value := c.First(); key != nil; key, value = c.Next()`.
    unfoldable pub list_messages : Tx → BucketPath → Result (List A)
    unfolding set_bucket unmarshal_all
    list_messages tx path = bind_result (set_bucket tx path) (λ b. unmarshal_all (first tx b))
