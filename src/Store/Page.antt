-- ===== src/Store/Page.antt =====
-- internal/eds/pkg/store/iterator.go: one page of an iterator. An iterator is the list of the rows
-- that its calls of Next yield, each with the token of Token.
use eamerald.Base.{
  ℕ, zero, suc, ◌+◌, ◌≡◌, ap, ◌∙◌, false, List, [], ◌∷◌, ◌++◌, arith, if◌then◌else◌, length,
  length-append, take, drop,
}
use native.Mathlib.Nat.{zero-add}
use mathlib.Core.List.{append_assoc, append-nil}
use eamerald.Base.Bytes.{Bytes}
use eamerald.Base.Int.{ℤ, pos, eqb_ℤ}

module _ {A : Type 0} where
  -- The token of the next row, if there is one.
  unfoldable pub next_token : List (A × Bytes) → Bytes
  next_token [] = []
  next_token ((v, token) ∷ rows) = token

  unfoldable pub page_from : List A → List (A × Bytes) → ℤ → List A × Bytes
  unfolding next_token
  page_from items [] page_size = (items, [])
  page_from items ((v, token) ∷ rows) page_size =
      let items' = items ++ v ∷ [] in
      if eqb_ℤ (pos (length items')) page_size
      then (items', next_token rows)
      else page_from items' rows page_size

  unfoldable pub page : List (A × Bytes) → ℤ → List A × Bytes
  unfolding page_from
  page rows page_size = page_from [] rows page_size

  abbrev pub values : List (A × Bytes) → List A
  values [] = []
  values ((v, token) ∷ rows) = v ∷ values rows

  page_from-take :
      (items : List A) (rows : List (A × Bytes)) (n : ℕ)
      → page_from items rows (pos (length items + suc n))
        ≡ (items ++ values (take (suc n) rows), next_token (drop (suc n) rows))
  unfolding page_from next_token
  page_from-take items [] n = ground (arith, append-nil items)
  page_from-take items ((v, token) ∷ rows) zero = ground (arith, length-append items (v ∷ []))
  page_from-take items ((v, token) ∷ rows) (suc n) =
      let grown : length items + suc (suc n) ≡ length (items ++ v ∷ []) + suc n =
        omega (arith, length-append items (v ∷ [])) in
      rw grown (
        ground (
          arith,
          page_from-take (items ++ v ∷ []) rows n,
          append_assoc items (v ∷ []) (values (take (suc n) rows)),
        ))

  -- A page of positive size holds the first rows, up to that many, and the token of the row behind
  -- them, if there is one.
  pub page-take :
      (rows : List (A × Bytes)) (n : ℕ)
      → page rows (pos (suc n)) ≡ (values (take (suc n) rows), next_token (drop (suc n) rows))
  unfolding page
  page-take rows n = rw zero-add at (page_from-take [] rows n)

  module _ (size : ℤ) (unbounded : (n : ℕ) → eqb_ℤ (pos (suc n)) size ≡ false) where
    page_from-values :
        (items : List A) (rows : List (A × Bytes))
        → page_from items rows size ≡ (items ++ values rows, [])
    unfolding page_from
    page_from-values items [] = rw append-nil
    page_from-values items ((v, token) ∷ rows) =
        let grown : length (items ++ v ∷ []) ≡ suc (length items) =
          omega (arith, length-append items (v ∷ [])) in
        rw (grown, unbounded (length items))
          (page_from-values (items ++ v ∷ []) rows
            ∙ ap (λ (vs : List A). (vs, [])) (append_assoc items (v ∷ []) (values rows)))

    -- A page of a size that no positive count equals, such as 0 or -1, holds every row, and no
    -- token.
    page-values : (rows : List (A × Bytes)) → page rows size ≡ (values rows, [])
    unfolding page
    page-values rows = page_from-values [] rows
