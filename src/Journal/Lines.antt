-- ===== src/Journal/Lines.antt =====
-- The lines of a file to which one line is appended.
use mcp_kubernetes_platform.Prelude.{
  ℕ, ◌≡◌, refl, ap, ◌∙◌, Bool, true, false, ◌&&◌, not, List, [], ◌∷◌, ◌++◌, eqb, Bool-cases, inl,
  inr, arith, all, append_assoc,
}
use mcp_kubernetes_platform.Journal.Records.{Bytes, is_end, on_line, lines_of}

-- no line break in it
abbrev pub is_one_line : Bytes → Bool
is_one_line l = all (λ c. not (is_end c)) l

-- Empty, or ended by a line feed.
pub data IsComplete : Bytes → Type 0 where
  empty : IsComplete []
  ended : (s : Bytes) → IsComplete (s ++ 10 ∷ [])

-- There is a first line.
abbrev HasLine : List Bytes → Type 0
HasLine ls = (l : Bytes) × ((rest : List Bytes) × (ls ≡ l ∷ rest))

on_line-HasLine : (c : ℕ) (ls : List Bytes) → HasLine (on_line c ls)
on_line-HasLine c [] = (c ∷ [], ([], refl))
on_line-HasLine c (l ∷ ls) = (c ∷ l, (ls, refl))

on_line-append :
    (c : ℕ) (ls ms : List Bytes) (l : Bytes)
    → HasLine ls
    → ms ≡ ls ++ l ∷ []
    → on_line c ms ≡ on_line c ls ++ l ∷ []
on_line-append c ls ms l (k, (rest, e)) h = rw (h, e) refl

lines_of-begun : (s : Bytes) → HasLine (lines_of true false s)
unfolding lines_of
lines_of-begun [] = ([], ([], refl))
lines_of-begun (c ∷ s) = elim (Bool-cases (is_end c)) [
  | inl e ↦ rw e ([], (_, refl))
  | inr e ↦ rw e (on_line-HasLine c (lines_of true false s))
]

lines_of-line :
    (b : Bool) (l : Bytes) → is_one_line l ≡ true → lines_of b false (l ++ 10 ∷ []) ≡ l ∷ []
unfolding lines_of
lines_of-line b [] h = refl
lines_of-line b (c ∷ l) h =
    let more = ap (on_line c) (lines_of-line true l (ground (arith, h))) in
    elim (Bool-cases (is_end c)) [ inl e ↦ absurd (ground (arith, h, e)) | inr e ↦ rw e more ]

lines_of-append :
    (s l : Bytes) (b cr : Bool)
    → is_one_line l ≡ true
    → lines_of b cr (s ++ 10 ∷ (l ++ 10 ∷ [])) ≡ lines_of b cr (s ++ 10 ∷ []) ++ l ∷ []
unfolding lines_of
lines_of-append [] l b true h = lines_of-line false l h
lines_of-append [] l b false h = ap (λ ls. [] ∷ ls) (lines_of-line false l h)
lines_of-append (c ∷ s) l b cr h =
    let more =
      on_line-append c _ _ l (lines_of-begun (s ++ 10 ∷ [])) (lines_of-append s l true false h) in
    let next = lines_of-append s l false (eqb c 13) h in
    elim (Bool-cases (cr && eqb c 10)) [
      | inl e ↦ rw e (lines_of-append s l false false h)
      | inr e ↦ elim (Bool-cases (is_end c)) [
        | inl k ↦ rw (e, k) (ap (λ ls. [] ∷ ls) next)
        | inr k ↦ rw (e, k) more
      ]
    ]

-- The line that is appended to a complete file is its new last one.
pub lines_of-IsComplete :
    {s : Bytes} (l : Bytes)
    → IsComplete s
    → is_one_line l ≡ true
    → lines_of false false (s ++ (l ++ 10 ∷ [])) ≡ lines_of false false s ++ l ∷ []
unfolding lines_of
lines_of-IsComplete l empty h = lines_of-line false l h
lines_of-IsComplete l (ended s) h =
    ap (lines_of false false) (append_assoc s (10 ∷ []) (l ++ 10 ∷ []))
    ∙ lines_of-append s l false false h
