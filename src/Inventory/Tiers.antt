-- ===== src/Inventory/Tiers.antt =====
-- What `critical_findings` returns.
use Prim.Native.String.{String}
use mathlib.Core.List.{Perm}
use mcp_kubernetes_platform.Prelude.{
  ℕ, zero, suc, ◌≤◌, ◌≡◌, refl, sym, ap, Bool, true, false, List, [], ◌∷◌, ◌++◌, ◌==◌, codes,
  length, take, keep, leb, leb→le, Bool-cases, inl, inr, arith, if◌then◌else◌,
}
use mcp_kubernetes_platform.Prelude.Order.{before_asymm, before_split}
use mcp_kubernetes_platform.Prelude.Sorting.{IsSorted, sort_by-perm, sort_by-IsSorted}
use mcp_kubernetes_platform.Inventory.Findings.{Finding, by_id, tier, gather, critical_findings}

by_id_total : (f g : Finding) → by_id f g ≡ false → by_id g f ≡ true
unfolding by_id
by_id_total f g h = ground (arith, h, before_asymm (codes g.component_id) (codes f.component_id))

by_id_trans : (f g k : Finding) → by_id f g ≡ true → by_id g k ≡ true → by_id f k ≡ true
unfolding by_id
by_id_trans f g k p q =
    ground (
      arith,
      p,
      q,
      before_split (codes k.component_id) (codes g.component_id) (codes f.component_id),
    )

if-same : {A : Type 0} (b : Bool) (x : A) → (if b then x else x) ≡ x
if-same true x = refl
if-same false x = refl

take-append : {A : Type 0} (n : ℕ) (xs ys : List A) → n ≤ length xs → take n (xs ++ ys) ≡ take n xs
unfolding take
take-append zero [] [] h = refl
take-append zero [] (y ∷ ys) h = refl
take-append (suc n) [] ys h = absurd (omega (arith, h))
take-append zero (x ∷ xs) ys h = refl
take-append (suc n) (x ∷ xs) ys h = ap (λ zs. x ∷ zs) (take-append n xs ys (omega (arith, h)))

-- The findings of a severity, ordered by their components.
pub record IsTier (fs : List Finding) (sev : String) (ts : List Finding) : Type 0 where
  pub same : Perm ts (keep (λ f. f.severity == sev) fs)
  pub ordered : IsSorted by_id ts

tier-IsTier : (fs : List Finding) (sev : String) → IsTier fs sev (tier fs sev)
unfolding tier
tier-IsTier fs sev =
    let all = keep (λ f. f.severity == sev) fs in
    record {
      same = sort_by-perm by_id all;
      ordered = sort_by-IsSorted by_id by_id_total by_id_trans all;
    }

-- The first findings, so many, of the critical ones and then the high ones.
pub record IsCritical (fs : List Finding) (limit : ℕ) (r : List Finding) : Type 0 where
  pub critical : List Finding
  pub high : List Finding
  pub critical_tier : IsTier fs "critical" critical
  pub high_tier : IsTier fs "high" high
  pub first : r ≡ take limit (critical ++ high)

-- `critical_findings` returns the first findings of the critical ones, ordered by component, and the
-- high ones, ordered too, whether or not its loop stops early.
pub critical_findings-IsCritical :
    (fs : List Finding) (limit : ℕ) → IsCritical fs limit (critical_findings fs limit)
unfolding critical_findings gather
critical_findings-IsCritical fs limit =
    let c = tier fs "critical" in
    let h = tier fs "high" in
    record {
      critical = c;
      high = h;
      critical_tier = tier-IsTier fs "critical";
      high_tier = tier-IsTier fs "high";
      first = elim (Bool-cases (leb limit (length c))) [
        | inl enough ↦ rw enough (sym (take-append limit c h (leb→le limit (length c) enough)))
        | inr fewer ↦ rw fewer (ap (take limit) (if-same (leb limit (length (c ++ h))) (c ++ h)))
      ];
    }
