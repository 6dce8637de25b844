-- ===== src/Fixes/Choice.antt =====
-- Which handler `dispatch` takes.
use mcp_kubernetes_platform.Prelude.{
  ℕ, ◌≡◌, ◌⊎◌, refl, ap, true, false, none, some, List, [], ◌∷◌, ◌++◌, All, inl, inr, Bool-cases,
}
use mcp_kubernetes_platform.Prelude.Effects.{Result, ok, raised}
use mcp_kubernetes_platform.Fixes.Data.{Finding, ClusterState, FixError}
use mcp_kubernetes_platform.Fixes.Conditions.{Handler, applies_to}
use mcp_kubernetes_platform.Fixes.Handlers.{generate_fix, then_do, dispatch_to}

abbrev pub Refuses : Finding → Handler → Type 0
Refuses f h = applies_to h f ≡ false

-- `h` is the first of the handlers that applies.
abbrev pub IsFirst : List Handler → Finding → Handler → Type 0
IsFirst hs f h =
    (before : List Handler) × (after : List Handler) × (hs ≡ before ++ h ∷ after)
    × All (Refuses f) before
    × (applies_to h f ≡ true)

pub then_do-cases :
    {A B : Type 0} (r : Result FixError A) (g : A → Result FixError B)
    → ((a : A) × (r ≡ ok a) × (then_do r g ≡ g a))
      ⊎ ((e : FixError) × (r ≡ raised e) × (then_do r g ≡ raised e))
then_do-cases (ok a) g = inl (a, refl, refl)
then_do-cases (raised e) g = inr (e, refl, refl)

module _ (bumped grown : ℕ → ℕ → ℕ) (f : Finding) (k : ClusterState) where
  pub dispatch_to-cases :
      (hs : List Handler)
      → (All (Refuses f) hs × (dispatch_to bumped grown hs f k ≡ ok none))
        ⊎ ((h : Handler) × IsFirst hs f h
            × (dispatch_to bumped grown hs f k
                ≡ then_do (generate_fix bumped grown h f k) (λ fix. ok (some fix))))
  unfolding dispatch_to
  dispatch_to-cases [] = inl (tt, refl)
  dispatch_to-cases (h ∷ hs) = elim (Bool-cases (applies_to h f)) [
    | inl yes_here ↦ inr (h, ([], hs, refl, tt, yes_here), rw yes_here refl)
    | inr not_here ↦ elim (dispatch_to-cases hs) [
      | inl none_later ↦ inl ((not_here, none_later.0), rw not_here none_later.1)
      | inr later ↦
          let first = later.1 in
          inr (
            later.0,
            (h ∷ first.0, first.1, ap (λ t. h ∷ t) first.2, (not_here, first.3), first.4),
            rw not_here later.2,
          )
    ]
  ]

  pub dispatch_to-Refuses :
      (hs : List Handler) → All (Refuses f) hs → dispatch_to bumped grown hs f k ≡ ok none
  unfolding dispatch_to
  dispatch_to-Refuses [] h = refl
  dispatch_to-Refuses (x ∷ hs) h = rw h.0 (dispatch_to-Refuses hs h.1)
