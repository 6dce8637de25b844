-- ===== src/Tests/Scaling.antt =====
-- Runs of the analyzer of autoscalers.
use mcp_kubernetes_platform.Prelude.{begins, ◌≡◌, refl, String, none, some, [], ◌∷◌, map}
use mcp_kubernetes_platform.Budgets.Analyzer.{found}
use mcp_kubernetes_platform.Scaling.Analyzer.{
  Hpa, long_ago, has_no_metrics, about_hpa, no_metrics, capped_at_max, metrics_findings, is_capped,
  with_cap, is_stale, with_stale, checks, evaluate_hpa,
}
use mcp_kubernetes_platform.Scaling.Categories.{Exclusive, evaluate_hpa-Exclusive}

abbrev identity : String → String
identity s = s

-- at its maximum since 40 minutes, and without metrics
abbrev hpa : Hpa
hpa = record {
  namespace = none;
  name = some "shop";
  uid = none;
  spec = some (record { max_replicas = 3; min_replicas = none; target_name = some "shop" });
  status = some (record {
    current_replicas = some 3;
    last_scale_time = some 0;
    conditions =
        record { type = "ScalingActive"; status = "True"; reason = some "FailedGetResourceMetric" }
        ∷ [];
  });
}

categories :
    map (λ f. f.category) (evaluate_hpa identity hpa 2400000000 2400000000 30 24 (found tt))
    ≡ "no_metrics" ∷ "capped_at_max" ∷ []
unfolding evaluate_hpa checks with_stale is_stale with_cap is_capped long_ago metrics_findings
    has_no_metrics begins no_metrics capped_at_max about_hpa
categories = refl

evaluate_hpa-Exclusive_example :
    Exclusive (evaluate_hpa identity hpa 2400000000 2400000000 30 24 (found tt))
evaluate_hpa-Exclusive_example =
    evaluate_hpa-Exclusive identity hpa 2400000000 2400000000 30 24 (found tt)
