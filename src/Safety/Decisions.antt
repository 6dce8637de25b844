-- ===== src/Safety/Decisions.antt =====
-- When the gate grants, what it raises otherwise, and what it leaves in the audit log.
use mcp_kubernetes_platform.Prelude.{
  ◌≡◌, ◌↔◌, ◌⊎◌, refl, Bool, true, false, String, none, some, [], ◌∷◌, ◌++◌, arith, if◌then◌else◌,
}
use mcp_kubernetes_platform.Prelude.Effects.{ok, raised}
use mcp_kubernetes_platform.Safety.Config.{SafetyConfig}
use mcp_kubernetes_platform.Safety.Audit.{
  Enriched, safety_gate_error, audit_log_error, Sinks, AuditLog, log_gate_decision,
}
use mcp_kubernetes_platform.Safety.Gate.{
  is_mutating, in_set, categorize, permitted, trading_reason, system_reason, check,
}

-- A namespace under the hard block, by exact name or by pattern.
abbrev pub IsProtected : SafetyConfig → String → Type 0
IsProtected cfg ns =
    (in_set cfg.trading_namespaces ns ≡ true) ⊎ (in_set cfg.system_namespaces ns ≡ true)

-- The log takes the record: it has no file, or the operating system accepts the write.
abbrev pub IsRecorded : AuditLog → Sinks → Type 0
IsRecorded log s = (log.path ≡ none) ⊎ (log.writable s.file ≡ true)

module _ (cfg : SafetyConfig) (log : AuditLog) (ns action : String) (dry_run : Bool)
    (s : Sinks) where
  -- The gate returns `True` exactly when the record is written and the action either does not
  -- mutate or is aimed at a namespace in neither the trading nor the system set.
  pub check-granted_iff :
      ((check cfg log ns action dry_run s).0 ≡ ok true)
      ↔ (IsRecorded log s × ((is_mutating action ≡ false) ⊎ (¬ IsProtected cfg ns)))
  unfolding check categorize log_gate_decision
  check-granted_iff = (λ h. ground arith, λ h. ground arith)

  -- A mutating action on a protected namespace raises, whatever `dry_run` says: the audit error if the record cannot
  -- be written, and otherwise the denial with the reason of the set, trading before system.
  pub check-protected :
      is_mutating action ≡ true
      → IsProtected cfg ns
      → ((check cfg log ns action dry_run s).0
          ≡ raised (
              safety_gate_error ns action
                (if in_set cfg.trading_namespaces ns then trading_reason else system_reason)))
        ⊎ ((p : String) × (log.path ≡ some p)
            × ((check cfg log ns action dry_run s).0 ≡ raised (audit_log_error p)))
  unfolding check categorize log_gate_decision
  check-protected m p = ground arith

  -- No grant goes unrecorded: when the gate returns `True` and the log has a file, the file has
  -- exactly one more line, at its end, and that line allows this action on this namespace.
  pub check_grant_recorded :
      (p : String)
      → log.path ≡ some p
      → (check cfg log ns action dry_run s).0 ≡ ok true
      → (e : Enriched) × ((check cfg log ns action dry_run s).1.file ≡ s.file ++ e ∷ [])
        × (e.decision.allowed ≡ true)
        × (e.decision.namespace ≡ ns)
        × (e.decision.action ≡ action)
  unfolding check categorize log_gate_decision
  check_grant_recorded p path granted = (
    record {
      timestamp = log.now;
      session_id = log.session_id;
      decision = record {
        namespace = ns;
        action = action;
        category = categorize cfg ns;
        allowed = true;
        reason = permitted;
        dry_run = dry_run;
      };
    },
    ground arith,
    refl,
    refl,
    refl,
  )
