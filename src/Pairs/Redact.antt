-- ===== src/Pairs/Redact.antt =====
-- `redact`: the substitution of the pattern (token|secret|password|key)=\S+, without regard to case.
use Prim.Native.Char.{code}
use Prim.Native.String.{String}
use mcp_kubernetes_platform.Prelude.{
  ℕ, zero, suc, ◌+◌, ◌-◌, Bool, false, ◌&&◌, ◌||◌, not, List, [], ◌∷◌, codes, eqb, is_space,
  if◌then◌else◌,
}

-- A letter of the pattern, which is small, matches itself, its capital and, as `re` has it, the long s
-- and the Kelvin sign.
abbrev pub same_letter : ℕ → ℕ → Bool
same_letter k c = eqb k c || eqb k (c + 32) || eqb k 115 && eqb c 383 || eqb k 107 && eqb c 8490

-- the text begins with a character that `\S` matches
abbrev pub has_value : String → Bool
has_value String.[] = false
has_value (String.◌∷◌ c s) = not (is_space (code c))

-- the text begins with the word, `=` and a value
abbrev pub value_at : List ℕ → String → Bool
value_at ks String.[] = false
value_at [] (String.◌∷◌ c s) = eqb (code c) 61 && has_value s
value_at (k ∷ ks) (String.◌∷◌ c s) = let rest = value_at ks s in same_letter k (code c) && rest

abbrev pub token : List ℕ
token = codes "token"

abbrev pub secret : List ℕ
secret = codes "secret"

abbrev pub password : List ℕ
password = codes "password"

abbrev pub key : List ℕ
key = codes "key"

-- the length of the word of a match at the beginning of the text; 0 if there is none
unfoldable pub match_length : String → ℕ
match_length s =
    if value_at token s
    then 5
    else if value_at secret s
    then 6
    else if value_at password s
    then 8
    else if value_at key s
    then 3
    else 0

-- one text and then another
abbrev pub put : String → String → String
put String.[] t = t
put (String.◌∷◌ c s) t = String.◌∷◌ c (put s t)

-- Where the substitution is: between matches, in the word of a match with some letters to come before
-- the sign, or in its value.
pub data Place : Type 0 where
  between : Place
  in_word : ℕ → Place
  in_value : Place

unfoldable pub substitute : Place → String → String
substitute p String.[] = ""
substitute between (String.◌∷◌ c s) =
    let n = match_length (String.◌∷◌ c s) in
    let matched = substitute (in_word (n - 1)) s in
    let unmatched = substitute between s in String.◌∷◌ c (if eqb n 0 then unmatched else matched)
substitute (in_word zero) (String.◌∷◌ c s) = put "=[REDACTED]" (substitute in_value s)
substitute (in_word (suc n)) (String.◌∷◌ c s) = String.◌∷◌ c (substitute (in_word n) s)
substitute in_value (String.◌∷◌ c s) =
    let after = substitute between s in
    let rest = substitute in_value s in if is_space (code c) then String.◌∷◌ c after else rest

unfoldable pub redact : String → String
redact line = substitute between line
