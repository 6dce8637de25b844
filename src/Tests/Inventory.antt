-- ===== src/Tests/Inventory.antt =====
-- Runs of the inventory.
use Prim.Native.String.{String}
use mcp_kubernetes_platform.Prelude.{
  ◌≡◌, refl, ◌==◌, String, none, some, List, [], ◌∷◌, is_in, count_if, get_or, take, begins,
  if◌then◌else◌,
}
use mcp_kubernetes_platform.Prelude.Assoc.{lookup}
use mcp_kubernetes_platform.Prelude.Order.{before}
use mcp_kubernetes_platform.Prelude.Sorting.{sort_by, insert_by}
use mcp_kubernetes_platform.Inventory.Findings.{
  Finding, severity_order, counts_by_severity, counts_by_fix_class, critical_findings, tier, gather,
  by_id, pattern_summary, ends_with, reversed_onto,
}
use mcp_kubernetes_platform.Inventory.Counted.{counts-lookup}
use mcp_kubernetes_platform.Inventory.Tiers.{IsCritical, critical_findings-IsCritical}

abbrev finding : String → String → String → Finding
finding id severity fix = record {
  component_id = id;
  kind = "code";
  severity = severity;
  fix_class = fix;
  diagnosis = "";
  evidence = "";
  evidence_secondary = "";
  proposed_fix = "";
  test_plan = "";
}

abbrev findings : List Finding
findings =
    finding "run.sh" "high" "rewrite"
    ∷ finding "manager" "critical" "rewrite"
    ∷ finding "manager" "low" "document"
    ∷ finding "api" "critical" "design"
    ∷ []

two_critical :
    critical_findings findings 2
    ≡ finding "api" "critical" "design" ∷ finding "manager" "critical" "rewrite" ∷ []
unfolding critical_findings gather tier sort_by insert_by by_id before take
two_critical = refl

shell_scripts : (pattern_summary (λ s. s) findings).shell_script_issues ≡ 1
unfolding pattern_summary ends_with reversed_onto begins
shell_scripts = refl

counts-lookup_example :
    (lookup "critical" (counts_by_severity findings) ≡ (
      if is_in "critical" severity_order
      then some (count_if (λ f. f.severity == "critical") findings)
      else none))
    × (get_or (lookup "critical" (counts_by_fix_class findings)) 0
        ≡ count_if (λ f. f.fix_class == "critical") findings)
counts-lookup_example = counts-lookup findings "critical"

critical_findings-IsCritical_example : IsCritical findings 2 (critical_findings findings 2)
critical_findings-IsCritical_example = critical_findings-IsCritical findings 2
