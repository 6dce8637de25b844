-- ===== src/Prelude/Order.antt =====
-- The order of texts, by code points.
use Prim.Native.Nat.{ℕ}
use mathlib.Core.Path.{◌≡◌, refl}
use mathlib.Core.Bool.{Bool, true, false, ◌&&◌, ◌||◌}
use mathlib.Core.List.{List, [], ◌∷◌}
use native.Mathlib.Omega.{arith}
use mcp_kubernetes_platform.Prelude.Tests.{ltb, eqb}

-- `s < t` on texts, by code points
unfoldable pub before : List ℕ → List ℕ → Bool
before s [] = false
before [] (d ∷ t) = true
before (c ∷ s) (d ∷ t) = ltb c d || eqb c d && before s t

pub before_asymm : (s t : List ℕ) → before s t ≡ true → before t s ≡ false
unfolding before
before_asymm s [] h = absurd (cc h)
before_asymm [] (d ∷ t) h = refl
before_asymm (c ∷ s) (d ∷ t) h = ground (arith, before_asymm s t, h)

pub before_split : (s t u : List ℕ) → before s u ≡ true → before t u ≡ false → before s t ≡ true
unfolding before
before_split s t [] h k = absurd (cc h)
before_split [] [] (e ∷ u) h k = absurd (cc k)
before_split [] (d ∷ t) (e ∷ u) h k = refl
before_split (c ∷ s) [] (e ∷ u) h k = absurd (cc k)
before_split (c ∷ s) (d ∷ t) (e ∷ u) h k = ground (arith, before_split s t u, h, k)
