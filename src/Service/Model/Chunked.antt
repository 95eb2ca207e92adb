-- ===== src/Service/Model/Chunked.antt =====
-- The data and the etag of a manifest that internal/eds/pkg/directory/v3/model.go receives in chunks.
use Prim.Native.Nat.{bit_xor}
use eamerald.Base.{ℕ, ◌*◌, ◌%◌, ◌^◌, ◌≡◌, refl, sym, ◌∙◌, List, [], ◌∷◌, ◌++◌, inl, inr}
use mathlib.Core.List.{append_assoc, append-nil}
use eamerald.Base.Bytes.{Bytes}
use eamerald.Base.Exec.{Result, ok, Result-cases}
use eamerald.Ds.Manifest.{offset64, prime64, write_hash}
use eamerald.Service.Model.{receive_bodies}
use eamerald.Service.Model.Chunks.{concat}

-- The data after each of the bodies, behind what was there before.
abbrev pub prefixes : Bytes → List Bytes → List Bytes
prefixes bytes [] = []
prefixes bytes (b ∷ bodies) = (bytes ++ b) ∷ prefixes (bytes ++ b) bodies

write_hash-append : (a b : Bytes) (h : ℕ) → write_hash h (a ++ b) ≡ write_hash (write_hash h a) b
unfolding write_hash
write_hash-append [] b h = refl
write_hash-append (c ∷ a) b h = write_hash-append a b ((bit_xor h c * prime64) % 2 ^ 64)

just_pair :
    (a a' : Bytes) (b b' : ℕ)
    → ◌≡◌ {A = Result (Bytes × ℕ)} (ok (a, b)) (ok (a', b'))
    → (a' ≡ a) × (b' ≡ b)
just_pair a a' b b' h = (cc, cc)

receive_bodies-from :
    (valid : Bytes → Result (Unit {0})) (bodies : List Bytes) (bytes bytes' : Bytes) (h h' : ℕ)
    → receive_bodies valid bodies bytes h ≡ ok (bytes', h')
    → (bytes' ≡ bytes ++ concat bodies) × (h' ≡ write_hash h (concat (prefixes bytes bodies)))
unfolding receive_bodies
receive_bodies-from valid [] bytes bytes' h h' e =
    let (same, hash) = just_pair bytes bytes' h h' e in
    (same ∙ sym (append-nil bytes), hash ∙ unfold write_hash in refl)
receive_bodies-from valid (b ∷ bodies) bytes bytes' h h' e = elim (Result-cases (valid b)) [
  | inr (x, bad) ↦ absurd (cc (rw bad at e))
  | inl (u, good) ↦
      let (same, hash) =
        receive_bodies-from valid bodies (bytes ++ b) bytes' (write_hash h (bytes ++ b)) h'
          (rw good at e) in
      (
        same ∙ append_assoc bytes b (concat bodies),
        hash ∙ sym (write_hash-append (bytes ++ b) (concat (prefixes (bytes ++ b) bodies)) h),
      )
]

-- The bodies that SetManifest receives, if all are valid, are put together in their order, but what
-- is hashed is the first body, then the first two, and so on, one after the other.
pub receive_bodies-prefixes :
    (valid : Bytes → Result (Unit {0})) (bodies : List Bytes) (bytes : Bytes) (h : ℕ)
    → receive_bodies valid bodies [] offset64 ≡ ok (bytes, h)
    → (bytes ≡ concat bodies) × (h ≡ write_hash offset64 (concat (prefixes [] bodies)))
receive_bodies-prefixes valid bodies bytes h e =
    receive_bodies-from valid bodies [] bytes offset64 h e
