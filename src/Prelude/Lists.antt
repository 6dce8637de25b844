-- ===== src/Prelude/Lists.antt =====
-- Lists over the native numbers, and the Boolean quantifiers of Python's `any`, `all` and `in`.
use Prim.Native.Nat.{ℕ, zero, suc, ◌+◌, ◌≤◌}
use Prim.Native.String.{String}
use mathlib.Core.Path.{◌≡◌, refl, ap}
use mathlib.Core.Logic.{◌⊎◌, inl, inr}
use mathlib.Core.Bool.{Bool, true, false, ◌&&◌, ◌||◌}
use mathlib.Core.List.{List, [], ◌∷◌, ◌++◌}
use native.Mathlib.Omega.{arith}
use text.Mathlib.Text.{◌==◌}
use mcp_kubernetes_platform.Prelude.Tests.{if◌then◌else◌}

module _ {ℓ} {A : Type ℓ} where
  abbrev pub length : List A → ℕ
  length [] = 0
  length (x ∷ xs) = suc (length xs)

  abbrev pub any : (A → Bool) → List A → Bool
  any p [] = false
  any p (x ∷ xs) = p x || any p xs

  abbrev pub all : (A → Bool) → List A → Bool
  all p [] = true
  all p (x ∷ xs) = p x && all p xs

  -- a comprehension `[x for x in xs if p(x)]`
  abbrev pub keep : (A → Bool) → List A → List A
  keep p [] = []
  keep p (x ∷ xs) = let rest = keep p xs in if p x then x ∷ rest else rest

  -- how many elements pass the test
  abbrev pub count_if : (A → Bool) → List A → ℕ
  count_if p [] = 0
  count_if p (x ∷ xs) = let rest = count_if p xs in if p x then suc rest else rest

  -- xs[:n]
  unfoldable pub take : ℕ → List A → List A
  take n [] = []
  take zero (x ∷ xs) = []
  take (suc n) (x ∷ xs) = x ∷ take n xs

  -- xs[n:]
  unfoldable pub drop : ℕ → List A → List A
  drop n [] = []
  drop zero (x ∷ xs) = x ∷ xs
  drop (suc n) (x ∷ xs) = drop n xs

  pub take-append-drop : (n : ℕ) (xs : List A) → take n xs ++ drop n xs ≡ xs
  unfolding take drop
  take-append-drop n [] = refl
  take-append-drop zero (x ∷ xs) = refl
  take-append-drop (suc n) (x ∷ xs) = ap (λ ys. x ∷ ys) (take-append-drop n xs)

  -- The part that is taken is full, or nothing is left.
  pub take-full :
      (n : ℕ) (xs : List A) → (length (take n xs) ≡ n) ⊎ ((take n xs ≡ xs) × (drop n xs ≡ []))
  unfolding take drop
  take-full n [] = inr (refl, refl)
  take-full zero (x ∷ xs) = inl refl
  take-full (suc n) (x ∷ xs) = elim (take-full n xs) [
    | inl e ↦ inl (ap suc e)
    | inr e ↦ inr (ap (λ ys. x ∷ ys) e.0, e.1)
  ]

  pub length-take-le : (n : ℕ) (xs : List A) → length (take n xs) ≤ n
  unfolding take
  length-take-le n [] = omega arith
  length-take-le zero (x ∷ xs) = omega arith
  length-take-le (suc n) (x ∷ xs) = omega (arith, length-take-le n xs)

  pub take-all : (n : ℕ) (xs : List A) → length xs ≤ n → take n xs ≡ xs
  unfolding take
  take-all n [] h = refl
  take-all zero (x ∷ xs) h = absurd (omega (arith, h))
  take-all (suc n) (x ∷ xs) h = ap (λ ys. x ∷ ys) (take-all n xs (omega (arith, h)))

  pub length-append : (xs ys : List A) → length (xs ++ ys) ≡ length xs + length ys
  length-append [] ys = omega arith
  length-append (x ∷ xs) ys = omega (arith, length-append xs ys)

-- A predicate on each element, by recursion.
abbrev pub All {ℓ κ} : {A : Type ℓ} → (A → Type κ) → List A → Type κ
All P [] = Unit
All P (x ∷ xs) = P x × All P xs

-- `s in names`
abbrev pub is_in : String → List String → Bool
is_in s [] = false
is_in s (x ∷ xs) = s == x || is_in s xs

-- Some element, by its place.
abbrev pub Any {ℓ} : {A : Type ℓ} → (A → Type 0) → List A → Type 0
Any P [] = ⊥
Any P (x ∷ xs) = P x ⊎ Any P xs

module _ {ℓ} {A : Type ℓ} {P Q : A → Type 0} where
  pub All-map : ((a : A) → P a → Q a) → (xs : List A) → All P xs → All Q xs
  All-map f [] h = tt
  All-map f (x ∷ xs) h = (f x h.0, All-map f xs h.1)

  pub Any-map : ((a : A) → P a → Q a) → (xs : List A) → Any P xs → Any Q xs
  Any-map f [] h = absurd h
  Any-map f (x ∷ xs) (inl h) = inl (f x h)
  Any-map f (x ∷ xs) (inr h) = inr (Any-map f xs h)

module _ {ℓ} {A : Type ℓ} {P Q : A → Type 0} {B : Type 0} where
  -- a property of all meets one of some
  pub All-Any : ((a : A) → P a → Q a → B) → (xs : List A) → All P xs → Any Q xs → B
  All-Any f [] h k = absurd k
  All-Any f (x ∷ xs) h (inl k) = f x h.0 k
  All-Any f (x ∷ xs) h (inr k) = All-Any f xs h.1 k

pub All-append {ℓ κ} :
    {A : Type ℓ} (P : A → Type κ) (xs ys : List A) → All P xs → All P ys → All P (xs ++ ys)
All-append P [] ys hx hy = hy
All-append P (x ∷ xs) ys hx hy = (hx.0, All-append P xs ys hx.1 hy)

pub Any-append_left {ℓ} :
    {A : Type ℓ} (P : A → Type 0) (xs ys : List A) → Any P xs → Any P (xs ++ ys)
Any-append_left P [] ys h = absurd h
Any-append_left P (x ∷ xs) ys (inl h) = inl h
Any-append_left P (x ∷ xs) ys (inr h) = inr (Any-append_left P xs ys h)
