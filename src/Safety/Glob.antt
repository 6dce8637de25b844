-- ===== src/Safety/Glob.antt =====
-- `fnmatch.fnmatch` of the standard library, as src/safety_gate.py uses it on a POSIX host, where
-- `os.path.normcase` changes nothing. A pattern is compiled to tokens as `fnmatch.translate` does:
-- `*`, `?`, `[seq]`, `[!seq]`, and a literal for all else, an unclosed `[` included.
pub mod Suffix
use mcp_kubernetes_platform.Prelude.{
  ℕ, zero, suc, ◌+◌, ◌≤◌, ◌≡◌, refl, ap, Bool, true, false, ◌&&◌, ◌||◌, not, Option, none, some,
  List, [], ◌∷◌, ◌++◌, map, arith, leb, eqb, if◌then◌else◌, length, any, codes, String, eqb→eq,
  eqb_refl,
}

-- One member of a bracket: the code points from the first to the second.
pub record Range : Type 0 where
  pub low : ℕ
  pub high : ℕ

pub data Token : Type 0 where
  star : Token
  single : Token
  lit : ℕ → Token
  set : Bool → List Range → Token

-- The text up to the closing bracket, and what follows it.
until_bracket : List ℕ → Option (List ℕ × List ℕ)
until_bracket [] = none
until_bracket (c ∷ s) =
    let found = until_bracket s in
    if eqb c b']'
    then some ([], s)
    else elim found [ none ↦ none | some (inside, rest) ↦ some (c ∷ inside, rest) ]

-- A `]` directly behind the opening is a member.
bracket_body : List ℕ → Option (List ℕ × List ℕ)
bracket_body [] = none
bracket_body (c ∷ s) =
    let first = until_bracket s in
    let plain = until_bracket (c ∷ s) in
    if eqb c b']'
    then elim first [ none ↦ none | some (inside, rest) ↦ some (c ∷ inside, rest) ]
    else plain

-- Whether the bracket is negated, its members, and the rest of the pattern.
bracket : List ℕ → Option (Bool × List ℕ × List ℕ)
bracket [] = none
bracket (c ∷ s) =
    if eqb c b'!'
    then elim (bracket_body s) [ none ↦ none | some (inside, rest) ↦ some (true, inside, rest) ]
    else elim (bracket_body (c ∷ s)) [
      | none ↦ none
      | some (inside, rest) ↦ some (false, inside, rest)
    ]

-- `a-z` is a range; a hyphen with nothing on one side is a member.
ranges : List ℕ → List Range
ranges [] = []
ranges (a ∷ []) = record { low = a; high = a } ∷ []
ranges (a ∷ h ∷ []) = record { low = a; high = a } ∷ record { low = h; high = h } ∷ []
ranges (a ∷ h ∷ z ∷ s) =
    let spanned = record { low = a; high = z } ∷ ranges s in
    let plain = record { low = a; high = a } ∷ ranges (h ∷ z ∷ s) in
    if eqb h b'-' then spanned else plain

-- Each round takes at least one code point, so the pattern's length is enough fuel.
compile_from : ℕ → List ℕ → List Token
compile_from zero p = []
compile_from (suc f) [] = []
compile_from (suc f) (c ∷ p) =
    let next = compile_from f p in
    if eqb c b'*'
    then star ∷ next
    else if eqb c b'?'
    then single ∷ next
    else if eqb c b'['
    then elim (bracket p) [
      | none ↦ lit c ∷ next
      | some (negated, inside, rest) ↦ set negated (ranges inside) ∷ compile_from f rest
    ]
    else lit c ∷ next

unfoldable pub compile : String → List Token
unfolding compile_from bracket bracket_body until_bracket ranges
compile p = compile_from (length (codes p)) (codes p)

in_range : ℕ → Range → Bool
in_range c r = leb r.low c && leb c r.high

-- Does the token accept the one code point?
accepts : Token → ℕ → Bool
unfolding in_range
accepts star c = false
accepts single c = true
accepts (lit d) c = eqb d c
accepts (set negated rs) c = if negated then not (any (in_range c) rs) else any (in_range c) rs

-- The star takes any beginning, none of it included.
some_tail : (List ℕ → Bool) → List ℕ → Bool
some_tail m [] = m []
some_tail m (c ∷ s) = m (c ∷ s) || some_tail m s

one_then : Token → (List ℕ → Bool) → List ℕ → Bool
one_then t m [] = false
one_then t m (c ∷ s) = accepts t c && m s

unfoldable pub matches : List Token → List ℕ → Bool
unfolding some_tail one_then accepts
matches [] [] = true
matches [] (c ∷ s) = false
matches (star ∷ ts) s = some_tail (matches ts) s
matches (single ∷ ts) s = one_then single (matches ts) s
matches (lit d ∷ ts) s = one_then (lit d) (matches ts) s
matches (set negated rs ∷ ts) s = one_then (set negated rs) (matches ts) s

-- fnmatch.fnmatch(name, pat)
unfoldable pub fnmatch : String → String → Bool
unfolding compile matches
fnmatch name pat = matches (compile pat) (codes name)

test_suffix : fnmatch "brightflow-live" "*-live" ≡ true
unfolding fnmatch
test_suffix = refl

test_other : fnmatch "live-tests" "*-live" ≡ false
unfolding fnmatch
test_other = refl

test_bracket : fnmatch "job-7x" "job-[0-9]?" ≡ true
unfolding fnmatch
test_bracket = refl

test_negated : fnmatch "job-a" "job-[!0-9]" ≡ true
unfolding fnmatch
test_negated = refl
