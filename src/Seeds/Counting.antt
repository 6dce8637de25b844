-- ===== src/Seeds/Counting.antt =====
-- How often a number stands in a list, through the list functions of `topological_sort`.
use mcp_kubernetes_platform.Prelude.{
  ℕ, suc, ◌+◌, ◌-◌, ◌≤◌, ◌≡◌, refl, ap, ◌∙◌, Bool, not, List, [], ◌∷◌, ◌++◌, arith, eqb, ltb, keep,
  length, inl, inr, Bool-cases, eqb→eq, eqb_refl, if◌then◌else◌,
}
use mcp_kubernetes_platform.Seeds.Plan.{member, keys, insert_sorted, sorted}

abbrev pub occurs : ℕ → List ℕ → ℕ
occurs i [] = 0
occurs i (j ∷ js) = let rest = occurs i js in if eqb i j then suc rest else rest

pub occurs-append : (i : ℕ) (xs ys : List ℕ) → occurs i (xs ++ ys) ≡ occurs i xs + occurs i ys
occurs-append i [] ys = omega arith
occurs-append i (x ∷ xs) ys = ground (arith, occurs-append i xs ys)

pub member-occurs : (i : ℕ) (xs : List ℕ) → member i xs ≡ ltb 0 (occurs i xs)
member-occurs i [] = refl
member-occurs i (x ∷ xs) = ground (arith, member-occurs i xs)

occurs-insert_sorted : (i j : ℕ) (xs : List ℕ) → occurs i (insert_sorted j xs) ≡ occurs i (j ∷ xs)
unfolding insert_sorted
occurs-insert_sorted i j [] = refl
occurs-insert_sorted i j (x ∷ xs) = ground (arith, occurs-insert_sorted i j xs)

pub occurs-sorted : (i : ℕ) (xs : List ℕ) → occurs i (sorted xs) ≡ occurs i xs
unfolding sorted
occurs-sorted i [] = refl
occurs-sorted i (x ∷ xs) = occurs-insert_sorted i x (sorted xs) ∙ ground (arith, occurs-sorted i xs)

pub occurs-keep :
    (p : ℕ → Bool) (i : ℕ) (xs : List ℕ) → occurs i (keep p xs) ≡ (if p i then occurs i xs else 0)
occurs-keep p i [] = ground arith
occurs-keep p i (x ∷ xs) = elim (Bool-cases (eqb i x)) [
  | inl same ↦
      let e : i ≡ x = eqb→eq i x same in rw (← e) (ground (arith, eqb_refl i, occurs-keep p i xs))
  | inr other ↦ ground (arith, other, occurs-keep p i xs)
]

-- a key stands once
pub occurs-keys :
    (i : ℕ) (xs : List ℕ) → occurs i (keys xs) ≡ (if eqb (occurs i xs) 0 then 0 else 1)
unfolding keys
occurs-keys i [] = refl
occurs-keys i (x ∷ xs) =
    ground (arith, occurs-keep (λ j. not (eqb x j)) i (keys xs), occurs-keys i xs)

-- without the first `x`
abbrev without : ℕ → List ℕ → List ℕ
without x [] = []
without x (y ∷ ys) = let rest = without x ys in if eqb x y then ys else y ∷ rest

occurs-without :
    (i x : ℕ) (ys : List ℕ)
    → occurs i (without x ys) ≡ (if eqb i x then occurs i ys - 1 else occurs i ys)
occurs-without i x [] = ground arith
occurs-without i x (y ∷ ys) = ground (arith, occurs-without i x ys)

length-without : (x : ℕ) (ys : List ℕ) → 1 ≤ occurs x ys → length ys ≡ suc (length (without x ys))
length-without x [] h = absurd (omega (arith, h))
length-without x (y ∷ ys) h = ground (arith, h, length-without x ys)

-- Fewer of each are fewer in all, and as many in all are as many of each.
pub length-le : (xs ys : List ℕ) → ((i : ℕ) → occurs i xs ≤ occurs i ys) → length xs ≤ length ys
length-le [] ys h = omega arith
length-le (x ∷ xs) ys h =
    let one : 1 ≤ occurs x ys = ground (arith, h x, eqb_refl x) in
    omega (
      arith,
      length-without x ys one,
      length-le xs (without x ys) (λ i. ground (arith, h i, occurs-without i x ys)),
    )

pub occurs-full :
    (xs ys : List ℕ)
    → ((i : ℕ) → occurs i xs ≤ occurs i ys)
    → length xs ≡ length ys
    → (i : ℕ) → occurs i ys ≡ occurs i xs
occurs-full [] [] h same i = refl
occurs-full [] (y ∷ ys) h same i = absurd (omega (arith, same))
occurs-full (x ∷ xs) ys h same i =
    let one : 1 ≤ occurs x ys = ground (arith, h x, eqb_refl x) in
    let rest : length xs ≡ length (without x ys) = omega (arith, same, length-without x ys one) in
    let full =
      occurs-full xs (without x ys) (λ j. ground (arith, h j, occurs-without j x ys)) rest i in
    elim (Bool-cases (eqb i x)) [
      | inl e ↦
          let p : i ≡ x = eqb→eq i x e in
          ground (arith, e, full, occurs-without i x ys, ap (λ k. occurs k ys) p, one)
      | inr e ↦ ground (arith, e, full, occurs-without i x ys)
    ]
