-- ===== src/Bolt.antt =====
-- What internal/eds/pkg/bdb uses of go.etcd.io/bbolt and of the message codecs, as interfaces: the
-- store and the codecs are no code of the repository. A bucket handle is its path from the root,
-- and a cursor is the list of the entries that it has still to visit.
use eamerald.Base.{◌≡◌, Bool, true, false, ◌&&◌, Option, none, some, List, [], ◌∷◌, if◌then◌else◌}
use eamerald.Base.Bytes.{Bytes, eqb}
use eamerald.Base.Order.{before}
use eamerald.Base.Exec.{Result, ok}
use eamerald.Data.{Object, Relation, RelationIdentifier}

abbrev pub BucketPath : Type 0
BucketPath = List Bytes

unfoldable pub path_eq : BucketPath → BucketPath → Bool
path_eq [] [] = true
path_eq [] (q ∷ qs) = false
path_eq (p ∷ ps) [] = false
path_eq (p ∷ ps) (q ∷ qs) = eqb p q && path_eq ps qs

abbrev pub Entry : Type 0
Entry = Bytes × Bytes

-- The calls of a `bolt.Tx`. `get` is none where Get returns nil.
pub record Bolt : Type 1 where
  pub Tx : Type 0
  pub has_bucket : Tx → BucketPath → Bool
  pub create_bucket_if_not_exists : Tx → BucketPath → Result Tx
  pub delete_bucket : Tx → BucketPath → Result Tx
  pub get : Tx → BucketPath → Bytes → Option Bytes
  pub put : Tx → BucketPath → Bytes → Bytes → Result Tx
  pub remove : Tx → BucketPath → Bytes → Result Tx
  pub first : Tx → BucketPath → List Entry
  pub seek : Tx → BucketPath → Bytes → List Entry

-- Every key of the entries sorts after `k`.
abbrev pub IsAbove : Bytes → List Entry → Type 0
IsAbove k [] = Unit
IsAbove k (e ∷ es) = (before k e.0 ≡ true) × IsAbove k es

-- The keys are distinct, not empty, and stand in byte order.
abbrev pub IsOrdered : List Entry → Type 0
IsOrdered [] = Unit
IsOrdered (e ∷ es) = (before [] e.0 ≡ true) × IsAbove e.0 es × IsOrdered es

unfoldable pub find : Bytes → List Entry → Option Bytes
find k [] = none
find k ((j, v) ∷ es) = if eqb j k then some v else find k es

-- The entries from the first key that does not sort before `k`.
unfoldable pub drop_before : Bytes → List Entry → List Entry
drop_before k [] = []
drop_before k ((j, v) ∷ es) = if before j k then drop_before k es else (j, v) ∷ es

-- The documented behaviour of bbolt: a bucket is an ordered map, Put and Delete change one key of
-- one bucket, First starts a cursor at the first key and Seek at the first key that is not below
-- the one that is sought.
pub record BoltLaws (b : Bolt) : Type 0 where
  pub get-put :
      (t : b.Tx) (p : BucketPath) (k v : Bytes) (u : b.Tx) (q : BucketPath) (j : Bytes)
      → b.put t p k v ≡ ok u
      → b.get u q j ≡ (if path_eq p q && eqb k j then some v else b.get t q j)
  pub get-remove :
      (t : b.Tx) (p : BucketPath) (k : Bytes) (u : b.Tx) (q : BucketPath) (j : Bytes)
      → b.remove t p k ≡ ok u
      → b.get u q j ≡ (if path_eq p q && eqb k j then none else b.get t q j)
  pub has_bucket-put :
      (t : b.Tx) (p : BucketPath) (k v : Bytes) (u : b.Tx) (q : BucketPath)
      → b.put t p k v ≡ ok u
      → b.has_bucket u q ≡ b.has_bucket t q
  pub has_bucket-remove :
      (t : b.Tx) (p : BucketPath) (k : Bytes) (u : b.Tx) (q : BucketPath)
      → b.remove t p k ≡ ok u
      → b.has_bucket u q ≡ b.has_bucket t q
  pub first_ordered : (t : b.Tx) (p : BucketPath) → IsOrdered (b.first t p)
  pub get-first : (t : b.Tx) (p : BucketPath) (k : Bytes) → b.get t p k ≡ find k (b.first t p)
  pub seek-first :
      (t : b.Tx) (p : BucketPath) (k : Bytes) → b.seek t p k ≡ drop_before k (b.first t p)

-- A codec of messages, such as `proto.Marshal` with `proto.Unmarshal`: what is written can be read
-- back.
pub record Codec (A : Type 0) : Type 0 where
  pub marshal : A → Result Bytes
  pub unmarshal : Bytes → Result A
  pub unmarshal-marshal : (a : A) (v : Bytes) → marshal a ≡ ok v → unmarshal v ≡ ok a

-- What the BoltDB backend is built on. A relation is also decoded as a bare identifier: the two
-- messages share the numbers of these fields, and an unknown field is discarded.
pub record Backend : Type 1 where
  pub bolt : Bolt
  pub objects : Codec Object
  pub relations : Codec Relation
  pub unmarshal_identifier : Bytes → Result RelationIdentifier

pub record BackendLaws (b : Backend) : Type 0 where
  pub bolt : BoltLaws b.bolt
  pub identifier-marshal :
      (r : Relation) (v : Bytes)
      → b.relations.marshal r ≡ ok v
      → b.unmarshal_identifier v ≡ ok r.ident
