-- ===== src/Sandbox/Ensures.antt =====
-- Rules on what an action of a sandbox run ensures when it returns.
use Prim.Native.String.{String}
use mathlib.Core.Path.{subst}
use mcp_kubernetes_platform.Prelude.{
  ◌≡◌, refl, ap, Bool, true, false, inl, inr, if◌then◌else◌, arith,
}
use mcp_kubernetes_platform.Prelude.Effects.{
  Result, ok, raised, Result-cases, pure, continue, ◌>>=◌,
}
use mcp_kubernetes_platform.Sandbox.Data.{History, SandboxError, Action}
use mcp_kubernetes_platform.Sandbox.Commands.{from_outside}
use mcp_kubernetes_platform.Sandbox.Lifecycle.{finally}

-- What holds of the value and the calls, if the action returns.
pub record Ensures {A : Type 0} (s : History) (Q : A → History → Type 0) (m : Action A)
    : Type 0 where
  pub at : (a : A) → (m s).0 ≡ ok a → Q a (m s).1

module _ {A B : Type 0} {Q : B → History → Type 0} where
  continue-Ensures :
      (r : Result SandboxError A) (f : A → Action B) (t : History)
      → ((a : A) → r ≡ ok a → Ensures t Q (f a))
      → (b : B) → (continue r f t).0 ≡ ok b
      → Q b (continue r f t).1
  continue-Ensures (ok a) f t q b e = (q a refl).at b e
  continue-Ensures (raised x) f t q b e = absurd (cc e)

  pub Ensures-bind :
      {s : History} (m : Action A) (f : A → Action B)
      → ((a : A) → (m s).0 ≡ ok a → Ensures (m s).1 Q (f a))
      → Ensures s Q (m >>= f)
  Ensures-bind {s} m f q = record { at = continue-Ensures (m s).0 f (m s).1 q }

abbrev value_or : {A : Type 0} → A → Result SandboxError A → A
value_or d (ok a) = a
value_or d (raised e) = d

module _ {B : Type 0} {s : History} {Q : B → History → Type 0} where
  pub Ensures-pure : (b : B) → Q b s → Ensures s Q (pure b)
  Ensures-pure b q = record { at = λ a e. subst (λ x. Q x s) (ap (value_or b) e) q }

  pub Ensures-if :
      (b : Bool) (m n : Action B)
      → (b ≡ true → Ensures s Q m)
      → (b ≡ false → Ensures s Q n)
      → Ensures s Q (if b then m else n)
  Ensures-if true m n p q = p refl
  Ensures-if false m n p q = q refl

pub from_outside-ok : {A : Type 0} (r : Result String A) (a : A) → from_outside r ≡ ok a → r ≡ ok a
from_outside-ok (ok x) a e = ap ok (ap (value_or x) e)
from_outside-ok (raised x) a e = absurd (cc e)

pub finally-returns :
    {A : Type 0} (n : Action A) (clause : Action Unit) (h : History) (a : A)
    → (finally n clause h).0 ≡ ok a
    → (n h).0 ≡ ok a
unfolding finally
finally-returns n clause h a e = elim (Result-cases (clause (n h).1).0) [
  | inl (x, f) ↦ rw f at e
  | inr (x, f) ↦ absurd (ground (arith, e, f))
]
