-- ===== src/Pairs/Idempotent.antt =====
-- Redaction changes nothing in a redacted text.
use Prim.Native.Char.{Char, code}
use Prim.Native.String.{String}
use mcp_kubernetes_platform.Prelude.{
  zero, suc, ◌≡◌, refl, sym, ap, ◌∙◌, true, false, is_space, inl, inr, Bool-cases,
}
use mcp_kubernetes_platform.Pairs.Redact.{
  match_length, put, Place, between, in_word, in_value, substitute, redact,
}
use mcp_kubernetes_platform.Pairs.Secrets.{match-cases, matched, unmatched, match_length-between}
use mcp_kubernetes_platform.Pairs.Redacted.{IsAt}

-- the next character of a value, and the end of a value
module _ (c : Char) (s : String) where
  value_ends :
      is_space (code c) ≡ true
      → substitute in_value (String.◌∷◌ c s) ≡ String.◌∷◌ c (substitute between s)
  unfolding substitute
  value_ends h = rw (substitute, h) refl

  value_goes_on :
      is_space (code c) ≡ false → substitute in_value (String.◌∷◌ c s) ≡ substitute in_value s
  unfolding substitute
  value_goes_on h = rw (substitute, h) refl

substitute-substitute :
    (p : Place) (s : String) → IsAt p s → substitute p (substitute p s) ≡ substitute p s
unfolding substitute
substitute-substitute p String.[] h = refl
substitute-substitute between (String.◌∷◌ c s) h = elim (match-cases (String.◌∷◌ c s)) [
  | inl none_here ↦
      let out = unmatched c s none_here in
      let again = ap match_length (sym out) ∙ (match_length-between (String.◌∷◌ c s) ∙ none_here) in
      ap (substitute between) out
      ∙ (unmatched c (substitute between s) again
          ∙ (ap (String.◌∷◌ c) (substitute-substitute between s tt) ∙ sym out))
  | inr here ↦
      let out = matched c s here.0 here.1 in
      let again = ap match_length (sym out) ∙ (match_length-between (String.◌∷◌ c s) ∙ here.1) in
      ap (substitute between) out
      ∙ (matched c (substitute (in_word here.0) s) here.0 again
          ∙ (ap (String.◌∷◌ c) (substitute-substitute (in_word here.0) s here.2.1) ∙ sym out))
]
substitute-substitute (in_word zero) (String.◌∷◌ c s) h =
    ap (put "=[REDACTED]") (substitute-substitute in_value s tt)
substitute-substitute (in_word (suc n)) (String.◌∷◌ c s) h =
    ap (String.◌∷◌ c) (substitute-substitute (in_word n) s h.1)
substitute-substitute in_value (String.◌∷◌ c s) h = elim (Bool-cases (is_space (code c))) [
  | inl space ↦
      let out = value_ends c s space in
      ap (substitute in_value) out
      ∙ (value_ends c (substitute between s) space
          ∙ (ap (String.◌∷◌ c) (substitute-substitute between s tt) ∙ sym out))
  | inr other ↦
      let out = value_goes_on c s other in
      ap (substitute in_value) out ∙ (substitute-substitute in_value s tt ∙ sym out)
]

pub redact-redact : (line : String) → redact (redact line) ≡ redact line
unfolding redact
redact-redact line = substitute-substitute between line tt
