-- ===== src/Safety/Glob/Suffix.antt =====
-- What a pattern such as `*-live` of the safety configuration accepts.
use mcp_kubernetes_platform.Prelude.{
  ℕ, zero, suc, ◌≤◌, ◌≡◌, ◌↔◌, inl, inr, refl, ap, sym, ◌∙◌, Bool, true, false, List, [], ◌∷◌, ◌++◌,
  map, arith, eqb, eqb_refl, length, codes, String, All, Bool-cases,
}
use mcp_kubernetes_platform.Safety.Glob.{
  Token, star, lit, some_tail, matches, compile, compile_from, fnmatch,
}

-- Neither `*` nor `?` nor `[`.
abbrev pub IsPlain : ℕ → Type 0
IsPlain c = (eqb c b'*' ≡ false) × (eqb c b'?' ≡ false) × (eqb c b'[' ≡ false)

compile_from-plain :
    (f : ℕ) (p : List ℕ) → length p ≤ f → All IsPlain p → compile_from f p ≡ map lit p
unfolding compile_from
compile_from-plain zero [] le h = refl
compile_from-plain zero (c ∷ p) le h = absurd (omega arith)
compile_from-plain (suc f) [] le h = refl
compile_from-plain (suc f) (c ∷ p) le h =
    rw (h.0.0, h.0.1, h.0.2) (ap (◌∷◌ (lit c)) (compile_from-plain f p (omega arith) h.1))

matches-lits : (p s : List ℕ) → matches (map lit p) s ≡ true → s ≡ p
unfolding matches
matches-lits [] [] h = refl
matches-lits [] (c ∷ s) h = cc
matches-lits (d ∷ p) [] h = cc
matches-lits (d ∷ p) (c ∷ s) h = ground (arith, matches-lits p s)

matches-lits_self : (p : List ℕ) → matches (map lit p) p ≡ true
unfolding matches
matches-lits_self [] = refl
matches-lits_self (d ∷ p) = ground (arith, matches-lits_self p, eqb_refl d)

some_tail-split :
    (m : List ℕ → Bool) (s : List ℕ)
    → some_tail m s ≡ true
    → (front back : List ℕ) × (s ≡ front ++ back) × (m back ≡ true)
unfolding some_tail
some_tail-split m [] h = ([], [], refl, h)
some_tail-split m (c ∷ s) h = elim (Bool-cases (m (c ∷ s))) [
  | inl here ↦ ([], c ∷ s, refl, here)
  | inr later ↦
      let (front, back, e, hit) = some_tail-split m s (ground arith) in
      (c ∷ front, back, ap (◌∷◌ c) e, hit)
]

some_tail-append :
    (m : List ℕ → Bool) (front back : List ℕ) → m back ≡ true → some_tail m (front ++ back) ≡ true
unfolding some_tail
some_tail-append m [] [] h = h
some_tail-append m [] (c ∷ s) h = ground arith
some_tail-append m (c ∷ front) back h = ground (arith, some_tail-append m front back h)

compile-star :
    (p : String) → All IsPlain (codes p) → compile (String.◌∷◌ "*" p) ≡ star ∷ map lit (codes p)
unfolding compile
compile-star p h = ap (◌∷◌ star) (compile_from-plain (length (codes p)) (codes p) (omega arith) h)

fnmatch-matches : (name p : String) → fnmatch name p ≡ matches (compile p) (codes name)
unfolding fnmatch
fnmatch-matches name p = refl

matches-star : (ts : List Token) (s : List ℕ) → matches (star ∷ ts) s ≡ some_tail (matches ts) s
unfolding matches
matches-star ts s = refl

fnmatch-some_tail :
    (p name : String)
    → All IsPlain (codes p)
    → fnmatch name (String.◌∷◌ "*" p) ≡ some_tail (matches (map lit (codes p))) (codes name)
fnmatch-some_tail p name h =
    fnmatch-matches name (String.◌∷◌ "*" p)
    ∙ ap (λ ts. matches ts (codes name)) (compile-star p h)
    ∙ matches-star (map lit (codes p)) (codes name)

-- A star in front of a text with no special character accepts exactly the names that end in it.
pub fnmatch-star_iff :
    (p name : String)
    → All IsPlain (codes p)
    → (fnmatch name (String.◌∷◌ "*" p) ≡ true)
      ↔ ((front : List ℕ) × (codes name ≡ front ++ codes p))
fnmatch-star_iff p name h = (
  λ hit.
      let (front, back, e, found) =
        some_tail-split _ (codes name) (sym (fnmatch-some_tail p name h) ∙ hit) in
      (front, e ∙ ap (λ t. front ++ t) (matches-lits (codes p) back found)),
  λ (front, e).
      fnmatch-some_tail p name h
      ∙ ap (some_tail (matches (map lit (codes p)))) e
      ∙ some_tail-append _ front (codes p) (matches-lits_self (codes p)),
)
