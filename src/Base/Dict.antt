-- ===== src/Base/Dict.antt =====
-- Go's maps with string keys, as association lists: the first entry of a key counts.
use mathlib.Core.Path.{◌≡◌, refl}
use mathlib.Core.Option.{Option, none, some}
use mathlib.Core.List.{List, [], ◌∷◌}
use native.Mathlib.Omega.{arith}
use eamerald.Base.Tests.{if◌then◌else◌}
use eamerald.Base.Bytes.{Bytes, eqb, eqb_iff}

module _ {ℓ} {V : Type ℓ} where
  unfoldable pub lookup : List (Bytes × V) → Bytes → Option V
  lookup [] key = none
  lookup ((k, v) ∷ fields) key = if eqb k key then some v else lookup fields key

  -- A write of a key.
  unfoldable pub insert : List (Bytes × V) → Bytes → V → List (Bytes × V)
  insert [] key v = (key, v) ∷ []
  insert ((k, u) ∷ fields) key v =
      let rest = insert fields key v in if eqb k key then (k, v) ∷ fields else (k, u) ∷ rest

  pub lookup-insert :
      (fields : List (Bytes × V)) (key : Bytes) (v : V) (other : Bytes)
      → lookup (insert fields key v) other ≡ (if eqb key other then some v else lookup fields other)
  unfolding lookup insert
  lookup-insert [] key v other = refl
  lookup-insert ((k, u) ∷ fields) key v other =
      ground
        (arith, eqb_iff key other, eqb_iff k key, eqb_iff k other, lookup-insert fields key v other)
