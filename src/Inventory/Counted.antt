-- ===== src/Inventory/Counted.antt =====
-- What the counts by severity and by fix class are.
use Prim.Native.String.{String}
use mcp_kubernetes_platform.Prelude.{
  ℕ, suc, ◌+◌, ◌≡◌, refl, ap, ◌∙◌, Option, none, some, List, [], ◌∷◌, ◌==◌, eq_iff, map, is_in,
  count_if, get_or, Bool-cases, Option-cases, inl, inr, arith, if◌then◌else◌,
}
use mcp_kubernetes_platform.Prelude.Assoc.{lookup, lookup-insert}
use mcp_kubernetes_platform.Inventory.Findings.{
  Finding, severity_order, Counts, zeros, count_known, count_all, counts_by_severity, bump,
  count_on, counts_by_fix_class,
}

abbrev add_to : Option ℕ → ℕ → Option ℕ
add_to none n = none
add_to (some m) n = some (m + n)

lookup-count_known :
    (s k : String) (d : Counts)
    → lookup k (count_known s d) ≡ add_to (lookup k d) (if s == k then 1 else 0)
unfolding count_known
lookup-count_known s k d = elim (Option-cases (lookup s d)) [
  | inl e ↦ ground (arith, e, eq_iff s k)
  | inr (n, e) ↦ ground (arith, e, eq_iff s k, lookup-insert s k (suc n) d)
]

lookup-count_all :
    (fs : List Finding) (k : String) (d : Counts)
    → lookup k (count_all fs d) ≡ add_to (lookup k d) (count_if (λ f. f.severity == k) fs)
unfolding count_all
lookup-count_all [] k d = ground arith
lookup-count_all (f ∷ fs) k d =
    ground
      (arith, lookup-count_all fs k (count_known f.severity d), lookup-count_known f.severity k d)

lookup-zeros :
    (ss : List String) (k : String) → lookup k (zeros ss) ≡ (if is_in k ss then some 0 else none)
unfolding lookup zeros
lookup-zeros [] k = refl
lookup-zeros (s ∷ ss) k = ground (arith, eq_iff s k, eq_iff k s, lookup-zeros ss k)

add_to-zeros :
    (ss : List String) (k : String) (n : ℕ)
    → add_to (lookup k (zeros ss)) n ≡ (if is_in k ss then some n else none)
add_to-zeros ss k n = elim (Bool-cases (is_in k ss)) [
  | inl e ↦ rw (lookup-zeros ss k, e) (ap some (omega arith))
  | inr e ↦ rw (lookup-zeros ss k, e) refl
]

lookup-bump :
    (j k : String) (d : Counts)
    → get_or (lookup k (bump j d)) 0 ≡ get_or (lookup k d) 0 + (if j == k then 1 else 0)
unfolding bump
lookup-bump j k d = ground (arith, eq_iff j k, lookup-insert j k (suc (get_or (lookup j d) 0)) d)

lookup-count_on :
    (fs : List Finding) (k : String) (d : Counts)
    → get_or (lookup k (count_on (map (λ f. f.fix_class) fs) d)) 0
      ≡ get_or (lookup k d) 0 + count_if (λ f. f.fix_class == k) fs
unfolding count_on
lookup-count_on [] k d = omega arith
lookup-count_on (f ∷ fs) k d =
    ground (arith, lookup-count_on fs k (bump f.fix_class d), lookup-bump f.fix_class k d)

-- The counts by severity have exactly the five severities, each with the number of its findings, so that
-- a finding of another severity is in none; the counts by fix class have the number of findings of each class.
pub counts-lookup :
    (fs : List Finding) (k : String)
    → (lookup k (counts_by_severity fs)
        ≡ (if is_in k severity_order then some (count_if (λ f. f.severity == k) fs) else none))
      × (get_or (lookup k (counts_by_fix_class fs)) 0 ≡ count_if (λ f. f.fix_class == k) fs)
unfolding counts_by_severity counts_by_fix_class lookup
counts-lookup fs k = (
  lookup-count_all fs k (zeros severity_order)
      ∙ add_to-zeros severity_order k (count_if (λ f. f.severity == k) fs),
  lookup-count_on fs k [] ∙ omega arith,
)
