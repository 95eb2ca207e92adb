-- ===== src/Service/Model/Chunks.antt =====
-- The chunks of a manifest that internal/eds/pkg/directory/v3/model.go sends.
use eamerald.Base.{
  ℕ, zero, suc, ◌+◌, ◌-◌, ◌<◌, ◌≤◌, ◌≡◌, refl, sym, ap, ◌∙◌, List, [], ◌∷◌, ◌++◌, ltb, length, take,
  drop, drop-nil, Bool-cases, inl, inr, arith,
}
use eamerald.Base.Bytes.{Bytes}
use mathlib.Core.List.{append-nil}
use native.Mathlib.Nat.{zero-add}
use eamerald.Service.Model.{chunks_from, chunks}

abbrev pub concat : List Bytes → Bytes
concat [] = []
concat (c ∷ cs) = c ++ concat cs

take-drop-append : (n : ℕ) (bytes : Bytes) → take n bytes ++ drop n bytes ≡ bytes
take-drop-append zero bytes = refl
take-drop-append (suc n) [] = refl
take-drop-append (suc n) (c ∷ bytes) = ap (λ cs. c ∷ cs) (take-drop-append n bytes)

drop-drop : (m n : ℕ) (bytes : Bytes) → drop n (drop m bytes) ≡ drop (m + n) bytes
drop-drop zero n bytes = rw zero-add
drop-drop (suc m) n [] =
    let grown : suc m + n ≡ suc (m + n) = omega arith in rw (grown, drop-nil n) refl
drop-drop (suc m) n (c ∷ bytes) =
    let grown : suc m + n ≡ suc (m + n) = omega arith in rw grown (drop-drop m n bytes)

drop-all : (n : ℕ) (bytes : Bytes) → length bytes ≤ n → drop n bytes ≡ []
drop-all zero [] h = refl
drop-all zero (c ∷ bytes) h = ground arith
drop-all (suc n) [] h = refl
drop-all (suc n) (c ∷ bytes) h = drop-all n bytes (omega arith)

length-drop : (n : ℕ) (bytes : Bytes) → length (drop n bytes) ≡ length bytes - n
length-drop zero bytes = omega arith
length-drop (suc n) [] = omega arith
length-drop (suc n) (c ∷ bytes) = omega (arith, length-drop n bytes)

take-all : (n : ℕ) (bytes : Bytes) → length bytes ≤ n → take n bytes ≡ bytes
take-all zero [] h = refl
take-all zero (c ∷ bytes) h = ground arith
take-all (suc n) [] h = refl
take-all (suc n) (c ∷ bytes) h = ap (λ cs. c ∷ cs) (take-all n bytes (omega arith))

module _ (n : ℕ) (bytes : Bytes) where
  concat-chunks_from :
      (fuel cur : ℕ)
      → length bytes < cur + fuel
      → concat (chunks_from (suc n) fuel cur bytes) ≡ drop cur bytes
  unfolding chunks_from
  concat-chunks_from zero cur h = sym (drop-all cur bytes (omega arith))
  concat-chunks_from (suc fuel) cur h = elim (Bool-cases (ltb cur (length bytes))) [
    | inr past ↦ rw past (sym (drop-all cur bytes (ground arith)))
    | inl inside ↦ elim (Bool-cases (ltb (length bytes) (cur + suc n))) [
      | inl last ↦
          rw (inside, last)
            (ap (λ rest. take (length bytes - cur) (drop cur bytes) ++ rest)
                (concat-chunks_from fuel (cur + suc n) (omega arith)
                  ∙ drop-all (cur + suc n) bytes (ground arith))
              ∙ append-nil (take (length bytes - cur) (drop cur bytes))
              ∙ take-all (length bytes - cur) (drop cur bytes)
                  (omega (arith, length-drop cur bytes)))
      | inr more ↦
          let room : (cur + suc n) - cur ≡ suc n = omega arith in
          rw (inside, more, room, concat-chunks_from fuel (cur + suc n) (omega arith))
            (ap (λ rest. take (suc n) (drop cur bytes) ++ rest) (sym (drop-drop cur (suc n) bytes))
              ∙ take-drop-append (suc n) (drop cur bytes))
    ]
  ]

-- The chunks, one after the other, are the manifest.
pub concat-chunks : (n : ℕ) (bytes : Bytes) → concat (chunks (suc n) bytes) ≡ bytes
unfolding chunks
concat-chunks n bytes = concat-chunks_from n bytes (suc (length bytes)) 0 (omega arith)
