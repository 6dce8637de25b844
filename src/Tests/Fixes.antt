-- ===== src/Tests/Fixes.antt =====
-- Runs of the deterministic fixes.
use mcp_kubernetes_platform.Prelude.{
  begins, contains, lower, mentions_lower, ℕ, ◌+◌, ◌*◌, ◌/◌, ◌≡◌, refl, true, String, Option, none,
  some, [], ◌∷◌,
}
use mcp_kubernetes_platform.Prelude.Effects.{ok, raised}
use mcp_kubernetes_platform.Fixes.Data.{
  Raw, Finding, ClusterState, kubectl_cmd, command, few_replicas,
}
use mcp_kubernetes_platform.Fixes.Conditions.{Handler, applies_to, registry}
use mcp_kubernetes_platform.Fixes.Handlers.{
  generate_fix, dispatch_to, dispatch, fix_orphan, fix_budget, relax_budget, budget_fix,
}
use mcp_kubernetes_platform.Fixes.Choice.{IsFirst}
use mcp_kubernetes_platform.Fixes.Reviews.{needs_review, dispatch-some}

abbrev raw : Option ℕ → Raw
raw pods = record {
  reason = none;
  message = none;
  current_image = none;
  existing_liveness_probe = none;
  bump_percent = none;
  current_memory_limit_bytes = none;
  storage_class_allow_expansion = none;
  usage_percent = none;
  capacity_gi = none;
  growth_percent = none;
  mismatched_label_key = none;
  blocking_taint = none;
  disruptions_allowed = none;
  matched_pods = pods;
}

abbrev finding : String → String → Option ℕ → Finding
finding behavior kind pods = record {
  uid = "u";
  behavior = behavior;
  namespace = "web";
  resource_kind = kind;
  resource_name = "shop";
  container_name = none;
  raw = raw pods;
}

abbrev cluster : ClusterState
cluster = record { cluster_dns_ip = none; node_label_values = none; metrics_server_deployed = none }

-- exact arithmetic
abbrev bumped : ℕ → ℕ → ℕ
bumped m p = m * (100 + p) / 104857600

abbrev grown : ℕ → ℕ → ℕ
grown c g = c * (100 + g) / 100

abbrev budget : ℕ → Finding
budget pods = finding "b" "PodDisruptionBudget" (some pods)

budget_dispatched : dispatch bumped grown (budget 3) cluster ≡ ok (some (budget_fix (budget 3) 3))
unfolding dispatch dispatch_to applies_to generate_fix fix_budget relax_budget
budget_dispatched = refl

dispatch-some_example :
    (h : Handler) × IsFirst registry (budget 3) h
    × (generate_fix bumped grown h (budget 3) cluster ≡ ok (budget_fix (budget 3) 3))
    × ((budget_fix (budget 3) 3).requires_review ≡ needs_review h)
dispatch-some_example =
    dispatch-some bumped grown (budget 3) cluster (budget_fix (budget 3) 3) budget_dispatched

single_raises : dispatch bumped grown (budget 1) cluster ≡ raised (few_replicas "shop" 1)
unfolding dispatch dispatch_to applies_to generate_fix fix_budget relax_budget
single_raises = refl

orphan_job :
    dispatch bumped grown (finding "orphan_job_remediation" "Job" none) cluster
    ≡ ok (
        some (record {
          description = "Delete orphan Job web/shop";
          patch_type = kubectl_cmd;
          payload = command "kubectl delete job shop -n web --cascade=foreground";
          requires_review = true;
          references = "https://kubernetes.io/docs/concepts/workloads/controllers/job/" ∷ [];
        }))
unfolding dispatch dispatch_to applies_to generate_fix fix_orphan
orphan_job = refl

lowered : mentions_lower "untolerated taint" "1 node had Untolerated Taint" ≡ true
unfolding mentions_lower contains begins lower
lowered = refl
