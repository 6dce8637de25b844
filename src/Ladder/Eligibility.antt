-- ===== src/Ladder/Eligibility.antt =====
-- The pure helpers of src/auto_remediate/remediation_ladder.py and the namespace circuit breaker.
use mcp_kubernetes_platform.Prelude.{
  ℕ, ◌+◌, ◌-◌, Bool, false, ◌&&◌, String, List, [], ◌∷◌, ◌==◌, leb, is_in, get_or, if◌then◌else◌,
  ◌<>◌, show, count_lines,
}
use mcp_kubernetes_platform.Prelude.Assoc.{lookup, insert}
use mcp_kubernetes_platform.Prelude.Effects.{Exec, ok, raised}
use mcp_kubernetes_platform.Ladder.Types.{
  LadderSession, PodDiagnosis, DpoPair, LadderError, namespace_circuit_open_error, Settings,
}

abbrev pub trading_namespaces : List String
trading_namespaces = "ibkr-live-trader" ∷ "daxxon-trading" ∷ "brightflow-live" ∷ []

abbrev pub restart_eligible_reasons : List String
restart_eligible_reasons =
    "CrashLoopBackOff" ∷ "ReadinessProbeConnectionRefused" ∷ "LivenessProbeTimeout" ∷ []

abbrev pub non_restart_reasons : List String
non_restart_reasons =
    "ImagePullBackOff" ∷ "ErrImagePull" ∷ "OOMKilled" ∷ "CreateContainerConfigError" ∷ "FailedMount"
    ∷ "FailedAttach" ∷ []

-- `namespace in TRADING_NAMESPACES`
unfoldable pub is_trading : String → Bool
is_trading ns = is_in ns trading_namespaces

unfoldable pub is_restart_eligible : Settings → String → ℕ → Bool
is_restart_eligible cfg reason restart_count =
    if is_in reason non_restart_reasons
    then false
    else if reason == "CrashLoopBackOff" && leb cfg.crash_threshold restart_count
    then false
    else is_in reason restart_eligible_reasons

unfoldable pub emit_dpo_pair : LadderSession → PodDiagnosis → String → String → DpoPair
emit_dpo_pair session diagnosis chosen chosen_outcome = record {
  session_id = session.session_id;
  prompt =
      "Pod "
      <> session.resource.namespace
      <> "/"
      <> session.resource.name
      <> " failed with "
      <> diagnosis.failure_class
      <> "; restart_count="
      <> show diagnosis.restart_count
      <> ".";
  rejected_action = "rollout_restart";
  rejected_outcome = "pod_still_sick_after_300s";
  chosen_action = chosen;
  chosen_outcome = chosen_outcome;
  evidence = record {
    failure_class = diagnosis.failure_class;
    exit_code = diagnosis.exit_code;
    restart_count = diagnosis.restart_count;
    event_reasons = diagnosis.event_reasons;
    log_tail_lines = count_lines diagnosis.log_tail;
  };
}

-- class NamespaceCircuitBreaker: the dict `_counts`
abbrev pub Counts : Type 0
Counts = List (String × ℕ)

-- the sessions counted for a namespace
unfoldable pub active : String → Counts → ℕ
active ns counts = get_or (lookup ns counts) 0

unfoldable pub acquire : ℕ → String → Exec LadderError Counts Unit
acquire cap ns counts =
    if leb cap (active ns counts)
    then (raised (namespace_circuit_open_error ns (active ns counts)), counts)
    else (ok tt, insert ns (active ns counts + 1) counts)

-- `max(0, n - 1)` is the truncated subtraction
unfoldable pub release : String → Counts → Counts
release ns counts = insert ns (get_or (lookup ns counts) 1 - 1) counts
