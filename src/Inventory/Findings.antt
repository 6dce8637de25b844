-- ===== src/Inventory/Findings.antt =====
-- The findings, their counts and the filtered views.
use Prim.Native.String.{String}
use mcp_kubernetes_platform.Prelude.{
  ℕ, suc, Bool, ◌&&◌, ◌||◌, not, Option, none, some, List, [], ◌∷◌, ◌++◌, ◌==◌, map, codes,
  mentions, begins, length, take, keep, any, leb, count_if, get_or, if◌then◌else◌,
}
use mcp_kubernetes_platform.Prelude.Assoc.{lookup, insert}
use mcp_kubernetes_platform.Prelude.Order.{before}
use mcp_kubernetes_platform.Prelude.Sorting.{sort_by}

-- the keys of a raw finding, each of which may be missing
pub record Raw : Type 0 where
  pub component_id : Option String
  pub kind : Option String
  pub severity : Option String
  pub fix_class : Option String
  pub diagnosis : Option String
  pub evidence : Option String
  pub evidence_secondary : Option String
  pub proposed_fix : Option String
  pub test_plan : Option String

pub record Finding : Type 0 where
  pub component_id : String
  pub kind : String
  pub severity : String
  pub fix_class : String
  pub diagnosis : String
  pub evidence : String
  pub evidence_secondary : String
  pub proposed_fix : String
  pub test_plan : String

-- `lower` is `str.lower`.
unfoldable pub from_dict : (String → String) → Raw → Finding
from_dict lower raw = record {
  component_id = get_or raw.component_id "";
  kind = get_or raw.kind "";
  severity = lower (get_or raw.severity "");
  fix_class = lower (get_or raw.fix_class "");
  diagnosis = get_or raw.diagnosis "";
  evidence = get_or raw.evidence "";
  evidence_secondary = get_or raw.evidence_secondary "";
  proposed_fix = get_or raw.proposed_fix "";
  test_plan = get_or raw.test_plan "";
}

-- AuditInventory.__init__
unfoldable pub load : (String → String) → List Raw → List Finding
load lower raws = map (from_dict lower) raws

abbrev pub severity_order : List String
severity_order = "critical" ∷ "high" ∷ "medium" ∷ "low" ∷ "info" ∷ []

abbrev pub Counts : Type 0
Counts = List (String × ℕ)

unfoldable pub zeros : List String → Counts
zeros [] = []
zeros (s ∷ ss) = (s, 0) ∷ zeros ss

-- one more for a severity that is counted
unfoldable pub count_known : String → Counts → Counts
count_known s counts = elim (lookup s counts) [ none ↦ counts | some n ↦ insert s (suc n) counts ]

unfoldable pub count_all : List Finding → Counts → Counts
count_all [] counts = counts
count_all (f ∷ fs) counts = count_all fs (count_known f.severity counts)

unfoldable pub counts_by_severity : List Finding → Counts
counts_by_severity fs = count_all fs (zeros severity_order)

-- one step of `Counter`
unfoldable pub bump : String → Counts → Counts
bump k counts = insert k (suc (get_or (lookup k counts) 0)) counts

unfoldable pub count_on : List String → Counts → Counts
count_on [] counts = counts
count_on (k ∷ ks) counts = count_on ks (bump k counts)

abbrev pub counter : List String → Counts
counter ks = count_on ks []

unfoldable pub counts_by_fix_class : List Finding → Counts
counts_by_fix_class fs = counter (map (λ f. f.fix_class) fs)

unfoldable pub by_severity : (String → String) → List Finding → String → List Finding
by_severity lower fs severity = keep (λ f. f.severity == lower severity) fs

unfoldable pub by_fix_class : (String → String) → List Finding → String → List Finding
by_fix_class lower fs fix_class = keep (λ f. f.fix_class == lower fix_class) fs

unfoldable pub by_component : List Finding → String → List Finding
by_component fs component_id = keep (λ f. f.component_id == component_id) fs

-- not after the other by component
unfoldable pub by_id : Finding → Finding → Bool
by_id f g = not (before (codes g.component_id) (codes f.component_id))

-- the findings of one severity, sorted
unfoldable pub tier : List Finding → String → List Finding
tier fs sev = sort_by by_id (keep (λ f. f.severity == sev) fs)

-- the loop over the severities, which breaks once there are enough
unfoldable pub gather : List Finding → ℕ → List String → List Finding → List Finding
gather fs limit [] results = results
gather fs limit (sev ∷ sevs) results =
    let more = results ++ tier fs sev in
    let rest = gather fs limit sevs more in if leb limit (length more) then more else rest

unfoldable pub critical_findings : List Finding → ℕ → List Finding
critical_findings fs limit = take limit (gather fs limit ("critical" ∷ "high" ∷ []) [])

pub record Patterns : Type 0 where
  pub stub_managers : ℕ
  pub dead_enhanced_tools : ℕ
  pub doc_overclaim : ℕ
  pub mock_only_tests : ℕ
  pub shell_script_issues : ℕ

unfoldable pub reversed_onto : List ℕ → List ℕ → List ℕ
reversed_onto [] acc = acc
reversed_onto (c ∷ s) acc = reversed_onto s (c ∷ acc)

-- `s.endswith(p)`
unfoldable pub ends_with : String → String → Bool
ends_with p s = begins (reversed_onto (codes p) []) (reversed_onto (codes s) [])

unfoldable pub is_stub : Finding → Bool
is_stub f =
    f.fix_class == "rewrite"
    && any (λ kw. mentions kw f.component_id) ("mcp-tool" ∷ "manager" ∷ "behavior" ∷ [])

unfoldable pub pattern_summary : (String → String) → List Finding → Patterns
pattern_summary lower fs = record {
  stub_managers = count_if is_stub fs;
  dead_enhanced_tools = count_if (λ f. mentions "enhanced" f.component_id) fs;
  doc_overclaim = count_if (λ f. f.fix_class == "document") fs;
  mock_only_tests =
      count_if (λ f. mentions "test" (lower f.component_id) || mentions "TEST" f.evidence) fs;
  shell_script_issues = count_if (λ f. ends_with ".sh" f.component_id) fs;
}
