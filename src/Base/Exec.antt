-- ===== src/Base/Exec.antt =====
-- Errors as values, and code that runs in a storage transaction. What was written before an error
-- stays written in the transaction, so the state comes back beside the error too.
use Prim.Native.Nat.{ℕ}
use mathlib.Core.Path.{◌≡◌, refl, ap, ◌∙◌}
use mathlib.Core.Logic.{◌⊎◌, inl, inr}
use mathlib.Core.Bool.{Bool, true, false}

-- The errors of internal/eds/pkg/bdb/boltdb.go and internal/eds/pkg/ds/error.go, those of the
-- `derr` and `aerr` packages that the handlers raise, and errors of other libraries: `foreign` carries whether
-- the gRPC status of the error is NotFound.
pub data Error : Type 0 where
  path_not_found key_not_found multiple_results : Error
  no_complete_object_identifier object_not_found hash_mismatch : Error
  invalid_object invalid_relation invalid_argument : Error
  unknown_op_code invalid_op_code unknown not_found : Error
  bucket_not_found filter_not_initialized : Error
  bad_query bad_runtime no_policy_loaded policy_root_not_loaded several_policies unimplemented :
      Error
  foreign : Bool → ℕ → Error

-- status.Code(err) == codes.NotFound
abbrev pub is_not_found : Error → Bool
is_not_found path_not_found = true
is_not_found key_not_found = true
is_not_found object_not_found = true
is_not_found not_found = true
is_not_found (foreign b n) = b
is_not_found _ = false

pub data Result {ℓ} (A : Type ℓ) : Type ℓ where
  ok : A → Result A
  err : Error → Result A

abbrev pub Exec {ℓ} : Type 0 → Type ℓ → Type ℓ
Exec S A = S → Result A × S

module _ {ℓ} {A : Type ℓ} where
  abbrev pub bind_result {κ} : {B : Type κ} → Result A → (A → Result B) → Result B
  bind_result (ok a) f = f a
  bind_result (err e) f = err e

  abbrev pub Result-map {κ} : {B : Type κ} → (A → B) → Result A → Result B
  Result-map f (ok a) = ok (f a)
  Result-map f (err e) = err e

  abbrev pub or_error : Result A → Error → Result A
  or_error (ok a) e = ok a
  or_error (err _) e = err e

  abbrev pub is_ok : Result A → Bool
  is_ok (ok a) = true
  is_ok (err e) = false

pub Result-cases {ℓ} :
    {A : Type ℓ} (r : Result A) → ((a : A) × (r ≡ ok a)) ⊎ ((e : Error) × (r ≡ err e))
Result-cases (ok a) = inl (a, refl)
Result-cases (err e) = inr (e, refl)

pub just_ok {ℓ} : {A : Type ℓ} (a b : A) → ◌≡◌ {A = Result A} (ok a) (ok b) → a ≡ b
just_ok a b h = cc

module _ {ℓ} {S : Type 0} {A : Type ℓ} where
  abbrev pub pure : A → Exec S A
  pure a s = (ok a, s)

  abbrev pub raise : Error → Exec S A
  raise e s = (err e, s)

  abbrev pub lift : Result A → Exec S A
  lift r s = (r, s)

  -- A read of the state, which may fail.
  abbrev pub reads : (S → Result A) → Exec S A
  reads f s = (f s, s)

  abbrev pub continue {κ} : {B : Type κ} → Result A → (A → Exec S B) → Exec S B
  continue (ok a) f s = f a s
  continue (err e) f s = (err e, s)

  infixl 10 ◌>>=◌
  abbrev pub ◌>>=◌ {κ} : {B : Type κ} → Exec S A → (A → Exec S B) → Exec S B
  ◌>>=◌ m f s = let (r, s') = m s in continue r f s'

  -- `if err != nil { return e }`: every error of `m` is reported as `e`.
  abbrev pub with_error : Exec S A → Error → Exec S A
  with_error m e s = let (r, s') = m s in (or_error r e, s')

-- A chain that succeeds has steps that succeed.
pub bind-ok {ℓ κ} :
    {S : Type 0} {A : Type ℓ} {B : Type κ} (m : Exec S A) (f : A → Exec S B) (s : S) (b : B) (t : S)
    → (m >>= f) s ≡ (ok b, t)
    → (a : A) × (mid : S) × (m s ≡ (ok a, mid)) × (f a mid ≡ (ok b, t))
bind-ok {S = S} {A = A} {B = B} m f s b t h = elim (Result-cases (m s).0) [
  | inl (a, e) ↦ (a, (m s).1, ap (λ (r : Result A). (r, (m s).1)) e, rw e at h)
  | inr (e, p) ↦ absurd (absurd_err e (rw p at h))
]
  where
    absurd_err : (e : Error) → ◌≡◌ {A = Result B × S} (err e, (m s).1) (ok b, t) → ⊥
    absurd_err e q = cc

infixl 10 ◌>>◌
abbrev pub ◌>>◌ {ℓ} : {S : Type 0} {B : Type ℓ} → Exec S (Unit {0}) → Exec S B → Exec S B
m >> n = m >>= λ _. n

-- A read-write transaction: an error rolls every write back.
abbrev pub commit_if_ok {ℓ} : {S : Type 0} {A : Type ℓ} → S → Result A × S → Result A × S
commit_if_ok s (ok a, s') = (ok a, s')
commit_if_ok s (err e, s') = (err e, s)

abbrev pub transact {ℓ} : {S : Type 0} {A : Type ℓ} → Exec S A → Exec S A
transact m s = commit_if_ok s (m s)

-- A transaction that succeeds ran a body that succeeded, and keeps its state.
pub transact-ok {ℓ} :
    {S : Type 0} {A : Type ℓ} (m : Exec S A) (s : S) (a : A) (t : S)
    → transact m s ≡ (ok a, t)
    → m s ≡ (ok a, t)
transact-ok {S = S} {A = A} m s a t h = committed (m s) h
  where
    committed : (p : Result A × S) → commit_if_ok s p ≡ (ok a, t) → p ≡ (ok a, t)
    committed (ok x, u) q = q
    committed (err e, u) q = absurd (failed q)
      where
        failed : ◌≡◌ {A = Result A × S} (err e, s) (ok a, t) → ⊥
        failed q = cc

-- What a part of the state that no step changes is after a chain, and after a transaction.
module _ {ℓ ι} {S : Type 0} {A : Type ℓ} {X : Type ι} (view : S → X) where
  pub bind-view {κ} :
      {B : Type κ} (m : Exec S A) (f : A → Exec S B) (s : S)
      → view (m s).1 ≡ view s
      → ((a : A) (u : S) → view (f a u).1 ≡ view u)
      → view ((m >>= f) s).1 ≡ view s
  bind-view m f s first later = elim (Result-cases (m s).0) [
    | inl (a, e) ↦ rw e (later a (m s).1 ∙ first)
    | inr (x, e) ↦ rw e first
  ]

  pub transact-view :
      (m : Exec S A) (s : S) → view (m s).1 ≡ view s → view (transact m s).1 ≡ view s
  transact-view m s kept = committed (m s) kept
    where
      committed : (p : Result A × S) → view p.1 ≡ view s → view (commit_if_ok s p).1 ≡ view s
      committed (ok a, u) k = k
      committed (err e, u) k = refl

pub with_error-ok {ℓ} :
    {S : Type 0} {A : Type ℓ} (m : Exec S A) (e : Error) (s : S) (a : A) (t : S)
    → with_error m e s ≡ (ok a, t)
    → m s ≡ (ok a, t)
with_error-ok {S = S} {A = A} m e s a t h = passed (m s) h
  where
    passed :
        (p : Result A × S) → ◌≡◌ {A = Result A × S} (or_error p.0 e, p.1) (ok a, t) → p ≡ (ok a, t)
    passed (ok x, u) q = q
    passed (err f, u) q = absurd (failed q)
      where
        failed : ◌≡◌ {A = Result A × S} (err e, u) (ok a, t) → ⊥
        failed q = cc
