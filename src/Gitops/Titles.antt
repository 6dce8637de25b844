-- ===== src/Gitops/Titles.antt =====
-- How long a title is.
use Prim.Native.String.{String}
use text.Mathlib.TextLemmas.{nil-append, cons-append}
use mcp_kubernetes_platform.Prelude.{
  ℕ, zero, suc, ◌+◌, ◌-◌, ◌≤◌, ◌≡◌, inl, inr, arith, ◌<>◌, ltb, Bool-cases,
}
use mcp_kubernetes_platform.Gitops.Texts.{
  Finding, take_text, text_length, cut_name, title_prefix, title_suffix, build_title,
}

text_length-append : (s t : String) → text_length (s <> t) ≡ text_length s + text_length t
text_length-append String.[] t = rw (nil-append t) (omega arith)
text_length-append (String.◌∷◌ c s) t =
    rw (cons-append c s t) (omega (arith, text_length-append s t))

text_length-take_text : (n : ℕ) (s : String) → text_length (take_text n s) ≤ n
unfolding take_text
text_length-take_text zero s = omega arith
text_length-take_text (suc n) String.[] = omega arith
text_length-take_text (suc n) (String.◌∷◌ c s) = omega (arith, text_length-take_text n s)

cut_name-length :
    (prefix suffix name : String)
    → text_length prefix + text_length suffix ≤ 117
    → text_length prefix + (text_length (cut_name prefix suffix name) + text_length suffix) ≤ 120
unfolding cut_name
cut_name-length prefix suffix name room =
    let n : ℕ = 120 - text_length prefix - text_length suffix - 3 in
    elim (Bool-cases (ltb 120 (text_length prefix + text_length suffix + text_length name))) [
      | inl long ↦
          rw (long, text_length-append (take_text n name) "...")
            (omega (arith, room, text_length-take_text n name))
      | inr short ↦ rw short (ground (arith, short))
    ]

-- A title has at most 120 characters if the namespace, the kind and the class of the fix leave
-- room for three dots.
pub build_title-length :
    (lower : String → String) (f : Finding)
    → text_length (title_prefix lower f) + text_length (title_suffix f) ≤ 117
    → text_length (build_title lower f) ≤ 120
unfolding build_title
build_title-length lower f room =
    simp (text_length-append) (cut_name-length (title_prefix lower f) (title_suffix f) f.name room)
