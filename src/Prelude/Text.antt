-- ===== src/Prelude/Text.antt =====
-- Text as code points, decimal numerals, and the parts of Python's `str` that the program uses.
use Prim.Native.Nat.{ℕ, zero, suc, ◌/◌, ◌%◌}
use Prim.Native.Char.{code}
use Prim.Native.String.{String, ◌++◌}
use mathlib.Core.Bool.{Bool, true, false, ◌&&◌, ◌||◌}
use mathlib.Core.Option.{Option, none, some}
use text.Mathlib.Text.{◌==◌}
use mathlib.Core.List.{List, [], ◌∷◌}
use mcp_kubernetes_platform.Prelude.Tests.{ltb, leb, eqb, if◌then◌else◌}
use mcp_kubernetes_platform.Prelude.Lists.{all}

abbrev pub codes : String → List ℕ
codes String.[] = []
codes (String.◌∷◌ c s) = code c ∷ codes s

-- concatenation of texts; `++` is that of lists
infixr 66 ◌<>◌
abbrev pub ◌<>◌ : String → String → String
s <> t = s ++ t

-- `str.isspace` on one code point
abbrev pub is_space : ℕ → Bool
is_space c =
    leb 9 c && leb c 13
    || leb 28 c && leb c 32
    || eqb c 133
    || eqb c 160
    || eqb c 5760
    || leb 8192 c && leb c 8202
    || eqb c 8232
    || eqb c 8233
    || eqb c 8239
    || eqb c 8287
    || eqb c 12288

-- `not s.strip()`
unfoldable pub is_blank : String → Bool
is_blank s = all is_space (codes s)

-- `o or d` for a text: the empty text is false too
abbrev pub text_or : Option String → String → String
text_or none d = d
text_or (some s) d = if s == "" then d else s

digit : ℕ → String
digit d =
    if eqb d 0
    then "0"
    else if eqb d 1
    then "1"
    else if eqb d 2
    then "2"
    else if eqb d 3
    then "3"
    else if eqb d 4
    then "4"
    else if eqb d 5
    then "5"
    else if eqb d 6
    then "6"
    else if eqb d 7
    then "7"
    else if eqb d 8
    then "8"
    else "9"

-- A number has fewer digits than its value plus one, so that much fuel is enough.
show_from : ℕ → ℕ → String → String
show_from zero n acc = acc
show_from (suc f) n acc =
    let more = show_from f (n / 10) (digit (n % 10) <> acc) in
    if ltb n 10 then digit n <> acc else more

-- `str(n)`
unfoldable pub show : ℕ → String
unfolding show_from digit
show n = show_from (suc n) n ""

-- a line boundary of `str.splitlines`
unfoldable pub is_break : ℕ → Bool
is_break c = leb 10 c && leb c 13 || leb 28 c && leb c 30 || eqb c 133 || eqb c 8232 || eqb c 8233

-- The flag says that the current line has begun, the other that the last break was `\r`.
count_lines_from : Bool → Bool → List ℕ → ℕ
count_lines_from begun cr [] = if begun then 1 else 0
count_lines_from begun cr (c ∷ s) =
    if cr && eqb c 10
    then count_lines_from false false s
    else if is_break c
    then suc (count_lines_from false (eqb c 13) s)
    else count_lines_from true false s

-- `len(s.splitlines())`
unfoldable pub count_lines : String → ℕ
unfolding count_lines_from is_break
count_lines s = count_lines_from false false (codes s)
