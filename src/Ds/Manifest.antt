-- ===== src/Ds/Manifest.antt =====
-- internal/eds/pkg/ds/manifest.go: the manifest in the store, and its hash.
use Prim.Native.Nat.{bit_xor}
use eamerald.Base.{
  ℕ, zero, suc, ◌+◌, ◌*◌, ◌/◌, ◌%◌, ◌^◌, Bool, false, [], ◌∷◌, ◌++◌, if◌then◌else◌, ltb,
}
use eamerald.Base.Bytes.{Bytes}
use eamerald.Base.Exec.{Result, ok, err, Exec, bind_result, Result-map, path_not_found}
use eamerald.Store.Manifest.{Metadata, ManifestTx}

-- hash/fnv: New64a, and Write of bytes.
abbrev pub offset64 : ℕ
offset64 = 14695981039346656037

abbrev pub prime64 : ℕ
prime64 = 1099511628211

unfoldable pub write_hash : ℕ → Bytes → ℕ
write_hash h [] = h
write_hash h (c ∷ bytes) = write_hash ((bit_xor h c * prime64) % 2 ^ 64) bytes

-- strconv.FormatUint with base 10; a uint64 has 20 digits at most.
unfoldable pub format_digits : ℕ → ℕ → Bytes
format_digits zero n = []
format_digits (suc fuel) n =
    let rest = format_digits fuel (n / 10) in
    if ltb n 10 then (48 + n) ∷ [] else rest ++ (48 + n % 10) ∷ []

unfoldable pub format_uint : ℕ → Bytes
unfolding format_digits
format_uint n = format_digits 20 n

-- The hash of a whole body, as an etag.
unfoldable pub body_etag : Bytes → Bytes
unfolding format_uint write_hash
body_etag body = format_uint (write_hash offset64 body)

pub record Manifest : Type 0 where
  pub metadata : Metadata
  pub body : Bytes

module _ (tx : ManifestTx) where
  -- An error counts as no manifest.
  unfoldable pub exists_or_false : Result Bool → Bool
  exists_or_false (ok b) = b
  exists_or_false (err e) = false

  unfoldable pub get_manifest : tx.State → Result Manifest
  unfolding exists_or_false
  get_manifest s =
      if exists_or_false (tx.manifest_exists s)
      then (bind_result (tx.get_manifest_metadata s) λ md.
          Result-map (λ bytes. record { metadata = md; body = bytes }) (tx.get_manifest_body s))
      else err path_not_found

  unfoldable pub get_model : tx.State → Result tx.Model
  unfolding exists_or_false
  get_model s =
      if exists_or_false (tx.manifest_exists s) then tx.get_manifest_model s else err path_not_found

  unfoldable pub set_manifest : Metadata → Bytes → Exec tx.State (Unit {0})
  set_manifest md bytes = tx.set_manifest md bytes

  -- `with_metadata` writes the etag and the time into azm's model.
  unfoldable pub set_model :
      (Metadata → tx.Model → tx.Model) → Metadata → tx.Model → Exec tx.State (Unit {0})
  set_model with_metadata md m = tx.set_manifest_model (with_metadata md m)
