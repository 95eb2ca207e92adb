-- ===== src/Base/Bytes.antt =====
-- Text and keys as byte strings: Go's `string` and `[]byte`, with `==` and `bytes.HasPrefix`.
use Prim.Native.Char.{code}
use Prim.Native.String.{String}
use Prim.Native.Nat.{ℕ}
use mathlib.Core.Path.{◌≡◌, refl}
use mathlib.Core.Logic.{◌↔◌}
use mathlib.Core.Bool.{Bool, true, false, ◌&&◌}
use mathlib.Core.List.{List, [], ◌∷◌, ◌++◌}
use native.Mathlib.Omega.{arith}
use eamerald.Base.Tests.{◌==◌}

abbrev pub Bytes : Type 0
Bytes = List ℕ

-- The bytes of an ASCII literal.
abbrev pub codes : String → Bytes
codes String.[] = []
codes (String.◌∷◌ c s) = code c ∷ codes s

unfoldable pub eqb : Bytes → Bytes → Bool
eqb [] [] = true
eqb [] (b ∷ bs) = false
eqb (a ∷ as') [] = false
eqb (a ∷ as') (b ∷ bs) = (a == b) && eqb as' bs

-- bytes.HasPrefix
unfoldable pub has_prefix : Bytes → Bytes → Bool
has_prefix bs [] = true
has_prefix [] (p ∷ ps) = false
has_prefix (b ∷ bs) (p ∷ ps) = (b == p) && has_prefix bs ps

pub eqb_refl : (a : Bytes) → eqb a a ≡ true
unfolding eqb
eqb_refl [] = refl
eqb_refl (x ∷ xs) = ground (arith, eqb_refl xs)

pub eqb-eq : (a b : Bytes) → eqb a b ≡ true → a ≡ b
unfolding eqb
eqb-eq [] [] h = refl
eqb-eq [] (b ∷ bs) h = ground arith
eqb-eq (a ∷ as') [] h = ground arith
eqb-eq (a ∷ as') (b ∷ bs) h = ground (arith, eqb-eq as' bs)

pub eqb_iff : (a b : Bytes) → (eqb a b ≡ true) ↔ (a ≡ b)
eqb_iff a b = (eqb-eq a b, λ e. subst_eq e)
  where
    subst_eq : a ≡ b → eqb a b ≡ true
    subst_eq e = rw (← e) (eqb_refl a)

-- Every byte string that extends a prefix has it.
pub has_prefix-append : (p r : Bytes) → has_prefix (p ++ r) p ≡ true
unfolding has_prefix
has_prefix-append [] r = refl
has_prefix-append (b ∷ p) r = ground (arith, has_prefix-append p r)
