-- ===== src/Base/Order.antt =====
-- The byte order of keys: Go's `bytes.Compare`, as the key-value store sorts them.
use mathlib.Core.Path.{◌≡◌, refl}
use mathlib.Core.Bool.{Bool, true, false, ◌&&◌, ◌||◌}
use mathlib.Core.List.{[], ◌∷◌}
use native.Mathlib.Omega.{arith}
use eamerald.Base.Tests.{◌==◌, ltb}
use eamerald.Base.Bytes.{Bytes, has_prefix}

-- `a` sorts strictly before `b`.
unfoldable pub before : Bytes → Bytes → Bool
before [] [] = false
before [] (b ∷ bs) = true
before (a ∷ as') [] = false
before (a ∷ as') (b ∷ bs) = ltb a b || ((a == b) && before as' bs)

pub before_irrefl : (a : Bytes) → before a a ≡ false
unfolding before
before_irrefl [] = refl
before_irrefl (x ∷ xs) = ground (arith, before_irrefl xs)

pub before_trans : (a b c : Bytes) → before a b ≡ true → before b c ≡ true → before a c ≡ true
unfolding before
before_trans [] [] c h k = ground arith
before_trans [] (b ∷ bs) [] h k = ground arith
before_trans [] (b ∷ bs) (c ∷ cs) h k = refl
before_trans (a ∷ as') [] c h k = ground arith
before_trans (a ∷ as') (b ∷ bs) [] h k = ground arith
before_trans (a ∷ as') (b ∷ bs) (c ∷ cs) h k = ground (arith, before_trans as' bs cs)

-- A key with a prefix does not sort before the prefix.
pub before-prefix : (k p : Bytes) → has_prefix k p ≡ true → before k p ≡ false
unfolding before has_prefix
before-prefix [] [] h = refl
before-prefix (k ∷ ks) [] h = refl
before-prefix [] (p ∷ ps) h = ground arith
before-prefix (k ∷ ks) (p ∷ ps) h = ground (arith, before-prefix ks ps)

-- The keys with a prefix stand together: past a key that lacks it, no later key has it.
pub prefix_convex :
    (p j k : Bytes)
    → before j p ≡ false
    → has_prefix j p ≡ false
    → before j k ≡ true
    → has_prefix k p ≡ false
unfolding before has_prefix
prefix_convex [] j k a b c = ground arith
prefix_convex (p ∷ ps) [] k a b c = ground arith
prefix_convex (p ∷ ps) (j ∷ js) [] a b c = ground arith
prefix_convex (p ∷ ps) (j ∷ js) (k ∷ ks) a b c = ground (arith, prefix_convex ps js ks)
