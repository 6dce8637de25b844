-- ===== src/Inventory/Components.antt =====
-- `top_components`.
use Prim.Native.String.{String}
use mcp_kubernetes_platform.Prelude.{
  ℕ, suc, Bool, ◌&&◌, ◌||◌, List, [], ◌∷◌, ◌++◌, ◌==◌, map, length, take, ltb, eqb, leb, get_or,
  if◌then◌else◌,
}
use mcp_kubernetes_platform.Prelude.Assoc.{lookup, insert}
use mcp_kubernetes_platform.Prelude.Sorting.{sort_by}
use mcp_kubernetes_platform.Inventory.Findings.{Finding, severity_order, Counts, counter}

pub record ComponentSummary : Type 0 where
  pub component_id : String
  pub finding_count : ℕ
  pub max_severity : String
  pub primary_fix_class : String
  pub severities : Counts
  pub fix_classes : Counts

abbrev pub Groups : Type 0
Groups = List (String × List Finding)

unfoldable pub group_one : Finding → Groups → Groups
group_one f groups =
    insert f.component_id (get_or (lookup f.component_id groups) [] ++ f ∷ []) groups

unfoldable pub group_all : List Finding → Groups → Groups
group_all [] groups = groups
group_all (f ∷ fs) groups = group_all fs (group_one f groups)

-- The first severity of the order that is counted, which has the least index.
unfoldable pub first_counted : Counts → List String → String
first_counted counts [] = "info"
first_counted counts (s ∷ ss) =
    if ltb 0 (get_or (lookup s counts) 0) then s else first_counted counts ss

-- `most_common(1)[0][0]`: the first of the keys with the highest count
unfoldable pub most_common : String → ℕ → Counts → String
most_common k n [] = k
most_common k n ((j, m) ∷ counts) =
    if ltb n m then most_common j m counts else most_common k n counts

-- A component has a finding, so there is a first key.
unfoldable pub primary_of : Counts → String
primary_of [] = ""
primary_of ((k, n) ∷ counts) = most_common k n counts

unfoldable pub summarize : String × List Finding → ComponentSummary
summarize (cid, findings) =
    let sev_counts = counter (map (λ f. f.severity) findings) in
    let fix_counts = counter (map (λ f. f.fix_class) findings) in
    record {
      component_id = cid;
      finding_count = length findings;
      max_severity = first_counted sev_counts severity_order;
      primary_fix_class = primary_of fix_counts;
      severities = sev_counts;
      fix_classes = fix_counts;
    }

-- list.index, for a text that is there
unfoldable pub index_of : String → List String → ℕ
index_of s [] = 0
index_of s (t ∷ ts) = if t == s then 0 else suc (index_of s ts)

abbrev pub rank : ComponentSummary → ℕ
rank s = index_of s.max_severity severity_order

-- More findings come first, and of as many the higher severity.
unfoldable pub ranked : ComponentSummary → ComponentSummary → Bool
ranked s t =
    ltb t.finding_count s.finding_count
    || eqb s.finding_count t.finding_count && leb (rank s) (rank t)

abbrev pub summaries : List Finding → List ComponentSummary
summaries fs = map summarize (group_all fs [])

unfoldable pub top_components : List Finding → ℕ → List ComponentSummary
top_components fs n = take n (sort_by ranked (summaries fs))
