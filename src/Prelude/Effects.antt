-- ===== src/Prelude/Effects.antt =====
-- Methods that mutate an object and may raise: what was written before a raise stays written, so
-- the state comes back beside the error too.
pub mod Keeps
use mathlib.Core.Path.{◌≡◌, refl}
use mathlib.Core.Logic.{◌⊎◌, inl, inr}
use mathlib.Core.Bool.{Bool, true, false}

pub data Result {ℓ} (E A : Type ℓ) : Type ℓ where
  ok : A → Result E A
  raised : E → Result E A

pub Result-cases {ℓ} :
    {E A : Type ℓ} (r : Result E A) → ((a : A) × (r ≡ ok a)) ⊎ ((e : E) × (r ≡ raised e))
Result-cases (ok a) = inl (a, refl)
Result-cases (raised e) = inr (e, refl)

abbrev pub Exec {ℓ} : Type ℓ → Type ℓ → Type ℓ → Type ℓ
Exec E S A = S → Result E A × S

module _ {ℓ} {E S A : Type ℓ} where
  abbrev pub pure : A → Exec E S A
  pure a s = (ok a, s)

  abbrev pub raise : E → Exec E S A
  raise e s = (raised e, s)

  abbrev pub gets : (S → A) → Exec E S A
  gets f s = (ok (f s), s)

  -- an answer from outside, which may be an exception
  abbrev pub lift : Result E A → Exec E S A
  lift r s = (r, s)

abbrev pub modify : {E S : Type 0} → (S → S) → Exec E S Unit
modify f s = (ok tt, f s)

module _ {ℓ} {E S A B : Type ℓ} where
  abbrev pub continue : Result E A → (A → Exec E S B) → Exec E S B
  continue (ok a) f s = f a s
  continue (raised e) f s = (raised e, s)

  infixl 5 ◌>>=◌ ◌>>◌
  abbrev pub ◌>>=◌ : Exec E S A → (A → Exec E S B) → Exec E S B
  ◌>>=◌ m f s = let (r, s') = m s in continue r f s'

  abbrev pub ◌>>◌ : Exec E S A → Exec E S B → Exec E S B
  m >> n = m >>= λ _. n

abbrev pub guard : {E S : Type 0} → Bool → E → Exec E S Unit
guard true e = pure tt
guard false e = raise e

abbrev pub when : {E S : Type 0} → Bool → Exec E S Unit → Exec E S Unit
when true m = m
when false m = pure tt
