-- ===== src/Safety/Gate.antt =====
-- src/safety_gate.py: the check that stands in front of every mutating operation.
use mcp_kubernetes_platform.Prelude.{
  Bool, true, false, ◌||◌, String, List, [], ◌∷◌, any, is_in, if◌then◌else◌,
}
use mcp_kubernetes_platform.Prelude.Effects.{Exec, raise, pure, ◌>>◌}
use mcp_kubernetes_platform.Safety.Glob.{fnmatch}
use mcp_kubernetes_platform.Safety.Config.{NamespaceSet, SafetyConfig}
use mcp_kubernetes_platform.Safety.Audit.{
  NamespaceCategory, trading, system, stateless_web, batch, unknown, Decision, GateError,
  safety_gate_error, Sinks, AuditLog, log_gate_decision,
}

abbrev pub mutating_actions : List String
mutating_actions =
    "apply" ∷ "patch" ∷ "delete" ∷ "restart" ∷ "rollout" ∷ "scale" ∷ "exec" ∷ "helm_upgrade"
    ∷ "helm_install" ∷ "helm_rollback" ∷ "auto_merge" ∷ []

-- `action in MUTATING_ACTIONS`
unfoldable pub is_mutating : String → Bool
is_mutating action = is_in action mutating_actions

-- the inner function `matches` of `_categorize`
unfoldable pub in_set : NamespaceSet → String → Bool
in_set set ns = is_in ns set.exact || any (fnmatch ns) set.pattern

unfoldable pub categorize : SafetyConfig → String → NamespaceCategory
categorize cfg ns =
    if in_set cfg.trading_namespaces ns
    then trading
    else if in_set cfg.system_namespaces ns
    then system
    else if in_set cfg.stateless_web_namespaces ns
    then stateless_web
    else if in_set cfg.batch_namespaces ns
    then batch
    else unknown

abbrev pub permitted : String
permitted = "permitted"

abbrev pub trading_reason : String
trading_reason =
    "trading namespace: mutating actions require human PR review; sandbox verification does not override this block"

abbrev pub system_reason : String
system_reason = "system namespace: all mutating actions blocked; page on-call"

-- The values of `allowed` and `reason` when the decision is logged.
unfoldable verdict : NamespaceCategory → Bool → Bool × String
verdict trading true = (false, trading_reason)
verdict system true = (false, system_reason)
verdict _ _ = (true, permitted)

unfoldable pub check : SafetyConfig → AuditLog → String → String → Bool → Exec GateError Sinks Bool
unfolding verdict
check cfg log ns action dry_run =
    let category = categorize cfg ns in
    let (allowed, reason) = verdict category (is_mutating action) in
    let decision : Decision = record {
      namespace = ns;
      action = action;
      category = category;
      allowed = allowed;
      reason = reason;
      dry_run = dry_run;
    } in
    log_gate_decision log decision
    >> (if allowed then pure true else raise (safety_gate_error ns action reason))
