-- ===== src/Safety/Audit.antt =====
-- src/audit.py: the append-only log of the gate's decisions. The clock and the operating system's
-- answer to a write are arguments; the JSON text of a record is left as the record.
use mcp_kubernetes_platform.Prelude.{
  Bool, String, Option, none, some, List, [], ◌∷◌, ◌++◌, if◌then◌else◌,
}
use mcp_kubernetes_platform.Prelude.Effects.{Exec, ok, raised}

pub data NamespaceCategory : Type 0 where
  trading system stateless_web batch unknown : NamespaceCategory

-- the record that `SafetyGate.check` hands over
pub record Decision : Type 0 where
  pub namespace : String
  pub action : String
  pub category : NamespaceCategory
  pub allowed : Bool
  pub reason : String
  pub dry_run : Bool

pub record Enriched : Type 0 where
  pub timestamp : String
  pub session_id : Option String
  pub decision : Decision

-- what the gate or the log raises
pub data GateError : Type 0 where
  safety_gate_error : String → String → String → GateError
  audit_log_error : String → GateError

-- The two sinks: the structured logger with its level, and the lines of the file.
pub record Sinks : Type 0 where
  pub infos : List Enriched
  pub warnings : List Enriched
  pub file : List Enriched

-- class AuditLog; `writable` is the operating system's answer to the append, and `now` the time.
pub record AuditLog : Type 0 where
  pub path : Option String
  pub session_id : Option String
  pub writable : List Enriched → Bool
  pub now : String

-- the call of `logger.info` or `logger.warning`
emit : Enriched → Sinks → Sinks
emit e s =
    if e.decision.allowed
    then record s { infos = s.infos ++ e ∷ [] }
    else record s { warnings = s.warnings ++ e ∷ [] }

-- the append to the JSONL file
persist : AuditLog → Option String → Enriched → Exec GateError Sinks Unit
persist log none e s = (ok tt, s)
persist log (some p) e s =
    if log.writable s.file
    then (ok tt, record s { file = s.file ++ e ∷ [] })
    else (raised (audit_log_error p), s)

unfoldable pub log_gate_decision : AuditLog → Decision → Exec GateError Sinks Unit
unfolding emit persist
log_gate_decision log d s =
    let e : Enriched = record { timestamp = log.now; session_id = log.session_id; decision = d } in
    persist log log.path e (emit e s)
