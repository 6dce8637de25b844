-- ===== src/Prelude/Effects/Keeps.antt =====
-- Invariants of methods that may raise: a rule for each way to build one. What the method leaves
-- behind on a raise is held to the invariant too.
use mathlib.Core.Bool.{Bool, true, false}
use mcp_kubernetes_platform.Prelude.Tests.{if◌then◌else◌}
use mcp_kubernetes_platform.Prelude.Effects.{
  Result, ok, raised, Exec, pure, raise, gets, lift, continue, ◌>>=◌,
}

pub record Keeps {ℓ} {E S A : Type ℓ} (P : S → Type ℓ) (m : Exec E S A) : Type ℓ where
  pub at : (s : S) → P s → P (m s).1

module _ {ℓ} {E S A B : Type ℓ} {P : S → Type ℓ} where
  continue-Keeps :
      (r : Result E A) (f : A → Exec E S B)
      → ((a : A) → Keeps P (f a))
      → (s : S) → P s
      → P (continue r f s).1
  continue-Keeps (ok a) f kf s h = (kf a).at s h
  continue-Keeps (raised e) f kf s h = h

  pub Keeps-bind :
      (m : Exec E S A) (f : A → Exec E S B)
      → Keeps P m
      → ((a : A) → Keeps P (f a))
      → Keeps P (m >>= f)
  Keeps-bind m f km kf = record {
    at = λ s h. let (r, s') = m s in continue-Keeps r f kf s' (km.at s h);
  }

module _ {ℓ} {E S A : Type ℓ} {P : S → Type ℓ} where
  pub Keeps-pure : (a : A) → Keeps {E = E} P (pure a)
  Keeps-pure a = record { at = λ s h. h }

  pub Keeps-raise : (e : E) → Keeps {A = A} P (raise e)
  Keeps-raise e = record { at = λ s h. h }

  pub Keeps-gets : (f : S → A) → Keeps {E = E} P (gets f)
  Keeps-gets f = record { at = λ s h. h }

  pub Keeps-lift : (r : Result E A) → Keeps P (lift r)
  Keeps-lift r = record { at = λ s h. h }

  pub Keeps-if :
      (b : Bool) (m n : Exec E S A) → Keeps P m → Keeps P n → Keeps P (if b then m else n)
  Keeps-if true m n km kn = km
  Keeps-if false m n km kn = kn
