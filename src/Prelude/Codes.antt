-- ===== src/Prelude/Codes.antt =====
-- Texts as lists of code points: equality, search and `strip`, as Python has them.
use Prim.Native.Nat.{ℕ, ◌+◌}
use Prim.Native.String.{String}
use mathlib.Core.Bool.{Bool, true, false, ◌&&◌, ◌||◌}
use mathlib.Core.List.{List, [], ◌∷◌, map}
use mcp_kubernetes_platform.Prelude.Tests.{leb, eqb, if◌then◌else◌}
use mcp_kubernetes_platform.Prelude.Lists.{all}
use mcp_kubernetes_platform.Prelude.Text.{codes, is_space}

-- `str.strip` is both
unfoldable pub lstrip : List ℕ → List ℕ
lstrip [] = []
lstrip (c ∷ s) = let rest = lstrip s in if is_space c then rest else c ∷ s

unfoldable pub rstrip : List ℕ → List ℕ
rstrip [] = []
rstrip (c ∷ s) = if all is_space (c ∷ s) then [] else c ∷ rstrip s

unfoldable pub same_codes : List ℕ → List ℕ → Bool
same_codes [] [] = true
same_codes [] (d ∷ t) = false
same_codes (c ∷ s) [] = false
same_codes (c ∷ s) (d ∷ t) = eqb c d && same_codes s t

-- `p in s`
unfoldable pub begins : List ℕ → List ℕ → Bool
begins [] cs = true
begins (p ∷ ps) [] = false
begins (p ∷ ps) (c ∷ cs) = eqb p c && begins ps cs

unfoldable pub contains : List ℕ → List ℕ → Bool
contains ps [] = begins ps []
contains ps (c ∷ cs) = begins ps (c ∷ cs) || contains ps cs

-- `str.lower` as far as the phrases that are looked for see it: their letters are lower cases of ASCII
-- letters only.
unfoldable pub lower : ℕ → ℕ
lower c = if leb 65 c && leb c 90 then c + 32 else c

unfoldable pub mentions : String → String → Bool
mentions phrase s = contains (codes phrase) (codes s)

unfoldable pub mentions_lower : String → String → Bool
mentions_lower phrase s = contains (codes phrase) (map lower (codes s))
