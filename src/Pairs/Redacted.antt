-- ===== src/Pairs/Redacted.antt =====
-- No secret is left in a redacted text.
use Prim.Native.Char.{Char, code}
use Prim.Native.String.{String}
use mcp_kubernetes_platform.Prelude.{
  ℕ, zero, suc, ◌≡◌, ◌⊎◌, refl, sym, ap, ◌∙◌, Bool, true, false, ◌&&◌, ◌||◌, not, eqb, arith,
  is_space, inl, inr, Bool-cases,
}
use mcp_kubernetes_platform.Pairs.Redact.{
  same_letter, match_length, put, Place, between, in_word, in_value, substitute, redact,
}
use mcp_kubernetes_platform.Pairs.Secrets.{
  IsWord, match-cases, matched, unmatched, match_length-between,
}

-- the text without its first n characters
abbrev drop : ℕ → String → String
drop zero s = s
drop (suc n) String.[] = ""
drop (suc n) (String.◌∷◌ c s) = drop n s

-- the value ends here
abbrev ends : String → Bool
ends String.[] = true
ends (String.◌∷◌ c s) = is_space (code c)

-- the text begins with the other, and then a value ends
abbrev ends_after : String → String → Bool
ends_after String.[] s = ends s
ends_after (String.◌∷◌ c t) String.[] = false
ends_after (String.◌∷◌ c t) (String.◌∷◌ d s) =
    let rest = ends_after t s in eqb (code c) (code d) && rest

-- Somewhere in the text there is a match whose value is not [REDACTED].
abbrev pub leaks : String → Bool
leaks String.[] = false
leaks (String.◌∷◌ c s) =
    let n = match_length (String.◌∷◌ c s) in
    let rest = leaks s in
    not (eqb n 0) && not (ends_after "=[REDACTED]" (drop n (String.◌∷◌ c s))) || rest

-- a value of the redacted text ends where it is
ends-in_value : (s : String) → ends (substitute in_value s) ≡ true
unfolding substitute
ends-in_value String.[] = refl
ends-in_value (String.◌∷◌ c s) = elim (Bool-cases (is_space (code c))) [
  | inl space ↦ rw (substitute, space) space
  | inr other ↦ rw (substitute, other) (ends-in_value s)
]

-- after the word, the redacted text has what stands for a secret
drop-in_word :
    (n : ℕ) (s : String)
    → IsWord n s
    → ends_after "=[REDACTED]" (drop n (substitute (in_word n) s)) ≡ true
unfolding substitute
drop-in_word n String.[] w = absurd w
drop-in_word zero (String.◌∷◌ c s) w = ends-in_value s
drop-in_word (suc n) (String.◌∷◌ c s) w = drop-in_word n s w.1

-- all words of matches before one sign end at the sign
IsWord-unique : (n m : ℕ) (s : String) → IsWord n s → IsWord m s → n ≡ m
IsWord-unique n m String.[] v w = absurd v
IsWord-unique zero zero (String.◌∷◌ c s) v w = refl
IsWord-unique zero (suc m) (String.◌∷◌ c s) v w = absurd (cc (v.0, w.0))
IsWord-unique (suc n) zero (String.◌∷◌ c s) v w = absurd (cc (v.0, w.0))
IsWord-unique (suc n) (suc m) (String.◌∷◌ c s) v w = ap suc (IsWord-unique n m s v.1 w.1)

IsWord-in_word : (n : ℕ) (s : String) → IsWord n s → IsWord n (substitute (in_word n) s)
unfolding substitute
IsWord-in_word n String.[] w = absurd w
IsWord-in_word zero (String.◌∷◌ c s) w = (refl, refl)
IsWord-in_word (suc n) (String.◌∷◌ c s) w = (w.0, IsWord-in_word n s w.1)

-- a place where no secret leaks
leaks-safe :
    (c : Char) (s : String)
    → (match_length (String.◌∷◌ c s) ≡ 0)
      ⊎ (ends_after "=[REDACTED]" (drop (match_length (String.◌∷◌ c s)) (String.◌∷◌ c s)) ≡ true)
    → leaks (String.◌∷◌ c s) ≡ leaks s
leaks-safe c s (inl h) = rw (leaks, h) refl
leaks-safe c s (inr h) = ground (arith, h)

-- white space begins no match
match_length-space :
    (c : Char) (s : String) → is_space (code c) ≡ true → match_length (String.◌∷◌ c s) ≡ 0
unfolding match_length
match_length-space c s h =
    let t : same_letter 116 (code c) ≡ false = ground (arith, h) in
    let e : same_letter 115 (code c) ≡ false = ground (arith, h) in
    let p : same_letter 112 (code c) ≡ false = ground (arith, h) in
    let k : same_letter 107 (code c) ≡ false = ground (arith, h) in rw (t, e, p, k) refl

abbrev pub IsAt : Place → String → Type 0
IsAt between s = Unit
IsAt (in_word n) s = IsWord n s
IsAt in_value s = Unit

-- the sign and what stands for a secret hold no match
leaks-placeholder : (s : String) → leaks (put "=[REDACTED]" s) ≡ leaks s
unfolding match_length
leaks-placeholder s = refl

-- a text with n characters before a sign, redacted, is safe at its beginning
word-safe :
    (n : ℕ) (c : Char) (s : String)
    → IsWord (suc n) (String.◌∷◌ c s)
    → leaks (String.◌∷◌ c (substitute (in_word n) s)) ≡ leaks (substitute (in_word n) s)
word-safe n c s w = elim (match-cases (String.◌∷◌ c (substitute (in_word n) s))) [
  | inl none_here ↦ leaks-safe c _ (inl none_here)
  | inr here ↦
      let same : here.0 ≡ n = IsWord-unique here.0 n _ here.2.1 (IsWord-in_word n s w.1) in
      leaks-safe c _ (inr (rw (here.1, same) (drop-in_word n s w.1)))
]

substitute-leaks : (p : Place) (s : String) → IsAt p s → leaks (substitute p s) ≡ false
unfolding substitute
substitute-leaks p String.[] h = refl
substitute-leaks between (String.◌∷◌ c s) h = elim (match-cases (String.◌∷◌ c s)) [
  | inl none_here ↦
      let out = unmatched c s none_here in
      ap leaks out
      ∙ (leaks-safe c (substitute between s)
            (inl (ap match_length (sym out) ∙ (match_length-between (String.◌∷◌ c s) ∙ none_here)))
          ∙ substitute-leaks between s tt)
  | inr here ↦
      ap leaks (matched c s here.0 here.1)
      ∙ (word-safe here.0 c s here.2 ∙ substitute-leaks (in_word here.0) s here.2.1)
]
substitute-leaks (in_word zero) (String.◌∷◌ c s) h =
    leaks-placeholder (substitute in_value s) ∙ substitute-leaks in_value s tt
substitute-leaks (in_word (suc n)) (String.◌∷◌ c s) h =
    word-safe n c s h ∙ substitute-leaks (in_word n) s h.1
substitute-leaks in_value (String.◌∷◌ c s) h = elim (Bool-cases (is_space (code c))) [
  | inl space ↦
      rw (substitute, space)
        (leaks-safe c (substitute between s) (inl (match_length-space c _ space))
          ∙ substitute-leaks between s tt)
  | inr other ↦ rw (substitute, other) (substitute-leaks in_value s tt)
]

-- In a redacted line each match of the pattern has the value [REDACTED].
pub redact-leaks : (line : String) → leaks (redact line) ≡ false
unfolding redact
redact-leaks line = substitute-leaks between line tt
