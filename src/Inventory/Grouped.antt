-- ===== src/Inventory/Grouped.antt =====
-- What `top_components` returns.
use Prim.Native.String.{String}
use mathlib.Core.List.{Perm}
use mcp_kubernetes_platform.Prelude.{ℕ, ◌+◌, ◌≡◌, ◌⊎◌, List, [], ◌∷◌, ◌++◌, length, get_or}
use mcp_kubernetes_platform.Prelude.Assoc.{lookup}
use mcp_kubernetes_platform.Prelude.Sorting.{IsSorted}
use mcp_kubernetes_platform.Inventory.Findings.{Finding, by_component}
use mcp_kubernetes_platform.Inventory.Components.{
  ComponentSummary, Groups, group_all, ranked, summaries,
}

-- how many findings are in the groups
abbrev total : Groups → ℕ
total [] = 0
total ((k, fs) ∷ d) = length fs + total d

abbrev pub sum_counts : List ComponentSummary → ℕ
sum_counts [] = 0
sum_counts (s ∷ ss) = s.finding_count + sum_counts ss

-- The first summaries, so many, of all components by their numbers of findings and severities.
pub record IsTop (fs : List Finding) (n : ℕ) (r : List ComponentSummary) : Type 0 where
  pub rest : List ComponentSummary
  pub all : Perm (r ++ rest) (summaries fs)
  pub ordered : IsSorted ranked (r ++ rest)
  pub full : (length r ≡ n) ⊎ (rest ≡ [])
  -- each finding is counted once
  pub sum : sum_counts (summaries fs) ≡ length fs
  -- a component's group has its findings
  pub groups : (k : String) → get_or (lookup k (group_all fs [])) [] ≡ by_component fs k
