-- ===== src/Prelude/Sorting.antt =====
-- `sorted`, as a stable sort by a Boolean order.
use mathlib.Core.Bool.{Bool, true, false}
use Prim.Native.Nat.{suc}
use native.Mathlib.Omega.{arith}
use mathlib.Core.Path.{◌≡◌, refl, ap, ◌∙◌}
use mathlib.Core.Logic.{inl, inr}
use mathlib.Core.List.{List, [], ◌∷◌, Perm}
use mathlib.Core.List.Perm
use mcp_kubernetes_platform.Prelude.Tests.{if◌then◌else◌, Bool-cases}
use mcp_kubernetes_platform.Prelude.Lists.{All, All-map, length}

module _ {A : Type 0} (le : A → A → Bool) where
  -- before the first element that it may stand before
  unfoldable pub insert_by : A → List A → List A
  insert_by x [] = x ∷ []
  insert_by x (y ∷ ys) = let rest = insert_by x ys in if le x y then x ∷ y ∷ ys else y ∷ rest

  -- Elements that may stand either way keep their order.
  unfoldable pub sort_by : List A → List A
  sort_by [] = []
  sort_by (x ∷ xs) = insert_by x (sort_by xs)

  -- Each element may stand before all that follow it.
  abbrev pub IsSorted : List A → Type 0
  IsSorted [] = Unit
  IsSorted (x ∷ xs) = All (λ y. le x y ≡ true) xs × IsSorted xs

  insert_by-perm : (x : A) (ys : List A) → Perm (insert_by x ys) (x ∷ ys)
  unfolding insert_by
  insert_by-perm x [] = Perm.rfl
  insert_by-perm x (y ∷ ys) = elim (Bool-cases (le x y)) [
    | inl e ↦ rw e Perm.rfl
    | inr e ↦ rw e (Perm.trans (Perm.cons y (insert_by-perm x ys)) (Perm.swap x y ys))
  ]

  length-insert_by : (x : A) (ys : List A) → length (insert_by x ys) ≡ suc (length ys)
  unfolding insert_by
  length-insert_by x [] = refl
  length-insert_by x (y ∷ ys) = ground (arith, length-insert_by x ys)

  pub length-sort_by : (xs : List A) → length (sort_by xs) ≡ length xs
  unfolding sort_by
  length-sort_by [] = refl
  length-sort_by (x ∷ xs) = length-insert_by x (sort_by xs) ∙ ap suc (length-sort_by xs)

  pub sort_by-perm : (xs : List A) → Perm (sort_by xs) xs
  unfolding sort_by
  sort_by-perm [] = Perm.rfl
  sort_by-perm (x ∷ xs) = Perm.trans (insert_by-perm x (sort_by xs)) (Perm.cons x (sort_by-perm xs))

  module _ (total : (x y : A) → le x y ≡ false → le y x ≡ true)
      (trans : (x y z : A) → le x y ≡ true → le y z ≡ true → le x z ≡ true) where
    insert_by-All : (P : A → Type 0) (x : A) (ys : List A) → P x → All P ys → All P (insert_by x ys)
    unfolding insert_by
    insert_by-All P x [] p h = (p, tt)
    insert_by-All P x (y ∷ ys) p h = elim (Bool-cases (le x y)) [
      | inl e ↦ rw e (p, h)
      | inr e ↦ rw e (h.0, insert_by-All P x ys p h.1)
    ]

    insert_by-IsSorted : (x : A) (ys : List A) → IsSorted ys → IsSorted (insert_by x ys)
    unfolding insert_by
    insert_by-IsSorted x [] s = (tt, tt)
    insert_by-IsSorted x (y ∷ ys) s = elim (Bool-cases (le x y)) [
      | inl e ↦ rw e ((e, All-map (λ z. trans x y z e) ys s.0), s)
      | inr e ↦ rw e (insert_by-All _ x ys (total x y e) s.0, insert_by-IsSorted x ys s.1)
    ]

    pub sort_by-IsSorted : (xs : List A) → IsSorted (sort_by xs)
    unfolding sort_by
    sort_by-IsSorted [] = tt
    sort_by-IsSorted (x ∷ xs) = insert_by-IsSorted x (sort_by xs) (sort_by-IsSorted xs)
