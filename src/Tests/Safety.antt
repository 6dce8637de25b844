-- ===== src/Tests/Safety.antt =====
-- The safety gate's theorems at the configuration of tests/test_safety_gate.py.
use mcp_kubernetes_platform.Prelude.{◌≡◌, ◌↔◌, ◌⊎◌, refl, true, false, none, some, [], ◌∷◌}
use mcp_kubernetes_platform.Prelude.Effects.{ok, raised}
use mcp_kubernetes_platform.Safety.Glob.{fnmatch}
use mcp_kubernetes_platform.Safety.Config.{SafetyConfig}
use mcp_kubernetes_platform.Safety.Audit.{safety_gate_error, Sinks, AuditLog, log_gate_decision}
use mcp_kubernetes_platform.Safety.Gate.{is_mutating, in_set, categorize, check, trading_reason}
use mcp_kubernetes_platform.Safety.Decisions.{IsProtected, IsRecorded, check-granted_iff}

abbrev config : SafetyConfig
config = record {
  trading_namespaces = record {
    exact = "ibkr-live-trader" ∷ "daxxon-trading" ∷ "brightflow-live" ∷ [];
    pattern = "*-live" ∷ "*-trading" ∷ "*-trader" ∷ "ibkr-*" ∷ [];
  };
  system_namespaces = record {
    exact =
        "kube-system" ∷ "kube-public" ∷ "kube-node-lease" ∷ "calico-system" ∷ "cert-manager"
        ∷ "ingress-nginx" ∷ [];
    pattern = [];
  };
  stateless_web_namespaces = record {
    exact = "brightflow-dashboard" ∷ [];
    pattern = "*-dashboard" ∷ "*-ui" ∷ [];
  };
  batch_namespaces = record {
    exact = "triton-inference" ∷ [];
    pattern = "cronjob-*" ∷ "*-batch" ∷ "*-jobs" ∷ [];
  };
  default_policy = "pr_required";
  override = record {
    enabled = false;
    authorized_pr_label = "force-apply";
    authorized_by = "";
    expires_at = "";
  };
}

abbrev log : AuditLog
log = record {
  path = some "/var/log/audit.jsonl";
  session_id = none;
  writable = λ lines. true;
  now = "2026-01-01T00:00:00+00:00";
}

abbrev nothing : Sinks
nothing = record { infos = []; warnings = []; file = [] }

trading_denied :
    (check config log "ibkr-gateway" "delete" true nothing).0
    ≡ raised (safety_gate_error "ibkr-gateway" "delete" trading_reason)
unfolding check categorize in_set is_mutating fnmatch log_gate_decision
trading_denied = refl

reading_granted : (check config log "ibkr-gateway" "get" true nothing).0 ≡ ok true
unfolding check categorize in_set is_mutating fnmatch log_gate_decision
reading_granted = refl

check-granted_iff_example : ((check config log "ibkr-gateway" "get" true nothing).0 ≡ ok true) ↔ (
    IsRecorded log nothing × ((is_mutating "get" ≡ false) ⊎ (¬ IsProtected config "ibkr-gateway")))
check-granted_iff_example = check-granted_iff config log "ibkr-gateway" "get" true nothing
