-- ===== src/Bdb/Bucket/Frame.antt =====
-- What a write or a delete of internal/eds/pkg/bdb/generic.go leaves alone, whether it succeeds or not.
use eamerald.Base.{◌≡◌, ap, ◌⊎◌, inl, inr, false, ◌&&◌}
use eamerald.Base.Bytes.{Bytes, eqb}
use eamerald.Base.Exec.{ok, Result-cases}
use eamerald.Bolt.{BucketPath, path_eq, Bolt, BoltLaws, Codec}
use eamerald.Bdb.Bucket.{
  set_bucket, set_bucket-ok, set_key, delete_key, set_message, get_message, writes,
}
use eamerald.Bdb.Bucket.Steps.{set_bucket-same, get_message-put_ne, get_message-remove_ne}

module _ {bolt : Bolt} (laws : BoltLaws bolt) where
  open bolt use {Tx, put, remove}

  module _ {A : Type 0} (codec : Codec A) where
    pub get_message-delete_key_ne :
        (t : Tx) (p : BucketPath) (k : Bytes) (q : BucketPath) (j : Bytes)
        → (path_eq p q && eqb k j) ≡ false
        → get_message bolt codec (delete_key bolt p k t).1 q j ≡ get_message bolt codec t q j
    unfolding delete_key
    get_message-delete_key_ne t p k q j other = elim (Result-cases (set_bucket bolt t p)) [
      | inl (b, e) ↦
          let there : set_bucket bolt t p ≡ ok p = rw (set_bucket-ok bolt t p b e) at e in
          elim (Result-cases (remove t p k)) [
            | inl (u, r) ↦
                rw (delete_key, there, writes, r)
                  (get_message-remove_ne laws codec t u p k q j r other)
            | inr (x, r) ↦ rw (delete_key, there, writes, r)
          ]
      | inr (x, e) ↦ rw (delete_key, e)
    ]

    -- A write of a message leaves the buckets, and the messages under other keys, whether it
    -- succeeds or not.
    set_message-state :
        (t : Tx) (p : BucketPath) (k : Bytes) (m : A)
        → ((set_message bolt codec p k m t).1 ≡ t)
          ⊎ ((v : Bytes) × (put t p k v ≡ ok (set_message bolt codec p k m t).1))
    unfolding set_message set_key
    set_message-state t p k m = elim (Result-cases (codec.marshal m)) [
      | inr (x, e) ↦ inl (rw (set_message, e))
      | inl (v, e) ↦ elim (Result-cases (set_bucket bolt t p)) [
        | inr (x, b) ↦ inl (rw (set_message, e, set_key, b))
        | inl (b, there) ↦
            let at_path : set_bucket bolt t p ≡ ok p =
              rw (set_bucket-ok bolt t p b there) at there in
            elim (Result-cases (put t p k v)) [
              | inl (u, r) ↦ inr (v, rw (set_message, e, set_key, at_path, writes, r))
              | inr (x, r) ↦ inl (rw (set_message, e, set_key, at_path, writes, r))
            ]
      ]
    ]

    pub get_message-set_message_ne :
        {B : Type 0} (other_codec : Codec B) (t : Tx) (p : BucketPath) (k : Bytes) (m : A)
        (q : BucketPath) (j : Bytes)
        → (path_eq p q && eqb k j) ≡ false
        → get_message bolt other_codec (set_message bolt codec p k m t).1 q j
          ≡ get_message bolt other_codec t q j
    get_message-set_message_ne other_codec t p k m q j other = elim (set_message-state t p k m) [
      | inl same ↦ ap (λ u. get_message bolt other_codec u q j) same
      | inr (v, e) ↦ get_message-put_ne laws other_codec t _ p k v q j e other
    ]

    pub set_bucket-set_message :
        (t : Tx) (p : BucketPath) (k : Bytes) (m : A) (q : BucketPath)
        → set_bucket bolt (set_message bolt codec p k m t).1 q ≡ set_bucket bolt t q
    set_bucket-set_message t p k m q = elim (set_message-state t p k m) [
      | inl same ↦ ap (λ u. set_bucket bolt u q) same
      | inr (v, e) ↦ set_bucket-same laws t _ (λ r. laws.has_bucket-put t p k v _ r e) q
    ]
