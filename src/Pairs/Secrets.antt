-- ===== src/Pairs/Secrets.antt =====
-- The matches in a redacted text are those of the text.
use Prim.Native.Char.{Char, code}
use Prim.Native.String.{String}
use mcp_kubernetes_platform.Prelude.{
  ℕ, zero, suc, ◌-◌, ◌≡◌, ◌⊎◌, refl, ap, ◌∙◌, true, false, List, [], ◌∷◌, All, length, eqb, eqb→eq,
  arith, inl, inr, Bool-cases,
}
use mcp_kubernetes_platform.Pairs.Redact.{
  same_letter, has_value, value_at, token, secret, password, key, match_length, between, in_word,
  substitute,
}

-- the sign is none of the letters
abbrev pub Letters : List ℕ → Type 0
Letters ks = All (λ k. same_letter k 61 ≡ false) ks

-- The text begins with n characters before the sign and a value.
abbrev pub IsWord : ℕ → String → Type 0
IsWord n String.[] = ⊥
IsWord zero (String.◌∷◌ c s) = (eqb (code c) 61 ≡ true) × (has_value s ≡ true)
IsWord (suc n) (String.◌∷◌ c s) = (eqb (code c) 61 ≡ false) × IsWord n s

token-Letters : Letters token
token-Letters = (refl, (refl, (refl, (refl, (refl, tt)))))

secret-Letters : Letters secret
secret-Letters = (refl, (refl, (refl, (refl, (refl, (refl, tt))))))

password-Letters : Letters password
password-Letters = (refl, (refl, (refl, (refl, (refl, (refl, (refl, (refl, tt))))))))

key-Letters : Letters key
key-Letters = (refl, (refl, (refl, tt)))

other_than_sign : (k c : ℕ) → same_letter k 61 ≡ false → same_letter k c ≡ true → eqb c 61 ≡ false
other_than_sign k c h l = elim (Bool-cases (eqb c 61)) [
  | inl same ↦ let e : c ≡ 61 = eqb→eq c 61 same in absurd (cc (h, l, e))
  | inr other ↦ other
]

value_at-IsWord :
    (ks : List ℕ) (s : String) → Letters ks → value_at ks s ≡ true → IsWord (length ks) s
value_at-IsWord [] String.[] l h = absurd (cc h)
value_at-IsWord (k ∷ ks) String.[] l h = absurd (cc h)
value_at-IsWord [] (String.◌∷◌ c s) l h = (ground (arith, h), ground (arith, h))
value_at-IsWord (k ∷ ks) (String.◌∷◌ c s) l h = (
  other_than_sign k (code c) l.0 (ground (arith, h)),
  value_at-IsWord ks s l.1 (ground (arith, h)),
)

has_value-between : (s : String) → has_value (substitute between s) ≡ has_value s
unfolding substitute
has_value-between String.[] = refl
has_value-between (String.◌∷◌ c s) = refl

value_at-in_word :
    (ks : List ℕ) (n : ℕ) (s : String)
    → Letters ks
    → IsWord n s
    → value_at ks (substitute (in_word n) s) ≡ value_at ks s
unfolding substitute
value_at-in_word ks n String.[] l w = absurd w
value_at-in_word [] zero (String.◌∷◌ c s) l w = rw (w.0, w.1) refl
value_at-in_word (k ∷ ks) zero (String.◌∷◌ c s) l w =
    let e : code c ≡ 61 = eqb→eq (code c) 61 w.0 in rw (e, l.0) refl
value_at-in_word [] (suc n) (String.◌∷◌ c s) l w = rw w.0 refl
value_at-in_word (k ∷ ks) (suc n) (String.◌∷◌ c s) l w = rw (value_at-in_word ks n s l.1 w.1) refl

-- a match, if there is one
pub match-cases :
    (s : String) → (match_length s ≡ 0) ⊎ ((n : ℕ) × (match_length s ≡ suc n) × IsWord (suc n) s)
unfolding match_length
match-cases s = elim (Bool-cases (value_at token s)) [
  | inl t ↦ inr (4, rw t refl, value_at-IsWord token s token-Letters t)
  | inr no_token ↦ elim (Bool-cases (value_at secret s)) [
    | inl t ↦ inr (5, rw (no_token, t) refl, value_at-IsWord secret s secret-Letters t)
    | inr no_secret ↦ elim (Bool-cases (value_at password s)) [
      | inl t ↦
          inr (7, rw (no_token, no_secret, t) refl, value_at-IsWord password s password-Letters t)
      | inr no_password ↦ elim (Bool-cases (value_at key s)) [
        | inl t ↦
            inr (
              2,
              rw (no_token, no_secret, no_password, t) refl,
              value_at-IsWord key s key-Letters t,
            )
        | inr no_key ↦ inl (rw (no_token, no_secret, no_password, no_key) refl)
      ]
    ]
  ]
]

-- the substitution from one character on
module _ (c : Char) (s : String) where
  pub unmatched :
      match_length (String.◌∷◌ c s) ≡ 0
      → substitute between (String.◌∷◌ c s) ≡ String.◌∷◌ c (substitute between s)
  unfolding substitute
  unmatched h = rw (substitute, h) refl

  pub matched :
      (n : ℕ)
      → match_length (String.◌∷◌ c s) ≡ suc n
      → substitute between (String.◌∷◌ c s) ≡ String.◌∷◌ c (substitute (in_word n) s)
  unfolding substitute
  matched n h =
      let positive : eqb (suc n) 0 ≡ false = ground arith in
      let before : suc n - 1 ≡ n = omega arith in rw (substitute, h, positive, before) refl

value_at-between :
    (ks : List ℕ) (s : String) → Letters ks → value_at ks (substitute between s) ≡ value_at ks s
unfolding substitute
value_at-between ks String.[] l = refl
value_at-between [] (String.◌∷◌ c s) l = elim (match-cases (String.◌∷◌ c s)) [
  | inl none_here ↦ ap (value_at []) (unmatched c s none_here) ∙ rw (has_value-between s) refl
  | inr here ↦ ap (value_at []) (matched c s here.0 here.1) ∙ rw here.2.0 refl
]
value_at-between (k ∷ ks) (String.◌∷◌ c s) l = elim (match-cases (String.◌∷◌ c s)) [
  | inl none_here ↦
      ap (value_at (k ∷ ks)) (unmatched c s none_here) ∙ rw (value_at-between ks s l.1) refl
  | inr here ↦
      ap (value_at (k ∷ ks)) (matched c s here.0 here.1)
      ∙ rw (value_at-in_word ks here.0 s l.1 here.2.1) refl
]

pub match_length-between : (s : String) → match_length (substitute between s) ≡ match_length s
unfolding match_length
match_length-between s =
    rw
      (
        value_at-between token s token-Letters,
        value_at-between secret s secret-Letters,
        value_at-between password s password-Letters,
        value_at-between key s key-Letters,
      )
      refl
