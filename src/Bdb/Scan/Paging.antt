-- ===== src/Bdb/Scan/Paging.antt =====
-- Ways to cut the rows of a scan into pages: internal/eds/pkg/store/iterator.go, and the loops of
-- internal/eds/pkg/directory/v3 that filter rows.
use eamerald.Base.{ℕ, zero, suc, ◌≡◌, refl, ap, List, [], ◌∷◌, ◌++◌, take, drop}
use eamerald.Base.Bytes.{Bytes}
use eamerald.Base.Int.{pos}
use eamerald.Store.Page.{page, page-take, values, next_token}

-- A way to cut pages: a page holds what `accepted` finds in a first part of the rows, which is not
-- empty unless they are, and has the token of the row behind it.
pub record Paging (A : Type 0) : Type 0 where
  pub pg : List (A × Bytes) → List A × Bytes
  pub accepted : List (A × Bytes) → List A
  pub consumed : List (A × Bytes) → ℕ
  pub accepted-nil : accepted [] ≡ []
  pub accepted-take-drop :
      (n : ℕ) (rows : List (A × Bytes))
      → accepted (take n rows) ++ accepted (drop n rows) ≡ accepted rows
  pub cut :
      (rows : List (A × Bytes))
      → pg rows
        ≡ (accepted (take (suc (consumed rows)) rows), next_token (drop (suc (consumed rows)) rows))

module _ {A : Type 0} where
  pub values-take-drop :
      (n : ℕ) (rows : List (A × Bytes)) → values (take n rows) ++ values (drop n rows) ≡ values rows
  values-take-drop zero rows = refl
  values-take-drop (suc n) [] = refl
  values-take-drop (suc n) ((v, token) ∷ rows) = ap (λ vs. v ∷ vs) (values-take-drop n rows)

  -- Pages of a positive size.
  abbrev pub sized_paging : ℕ → Paging A
  sized_paging n = record {
    pg = λ rows. page rows (pos (suc n));
    accepted = values;
    consumed = λ rows. n;
    accepted-nil = refl;
    accepted-take-drop = values-take-drop;
    cut = λ rows. page-take rows n;
  }
