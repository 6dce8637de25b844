-- ===== src/Observer/Loop.antt =====
-- src/auto_remediate/runtime.py: the window of findings that were seen, and the loop.
use mcp_kubernetes_platform.Prelude.{
  ℕ, zero, suc, ◌+◌, ◌*◌, Bool, String, ◌<>◌, ◌==◌, List, [], ◌∷◌, ◌++◌, any, eqb, leb,
  if◌then◌else◌,
}
use mcp_kubernetes_platform.Prelude.Effects.{Result, ok, raised}
use mcp_kubernetes_platform.Observer.Findings.{
  Severity, critical, high, medium, low, info, Finding, fingerprint,
}

pub record SeenEntry : Type 0 where
  pub expires_at : ℕ
  pub key : String

unfoldable pub dedup_key : Finding → String
dedup_key f =
    f.resource.namespace <> "/" <> f.resource.kind <> "/" <> f.resource.name <> "/" <> f.category

-- The `while` loop of `_is_seen`.
unfoldable pub prune : ℕ → List SeenEntry → List SeenEntry
prune now [] = []
prune now (e ∷ es) = let rest = prune now es in if leb e.expires_at now then rest else e ∷ es

-- A finding with the readings of the clock while it is handled: in `_is_seen`, in `_mark_seen` and,
-- as a text, for the audit line; and whether the audit file can be written then.
pub record Handling : Type 0 where
  pub finding : Finding
  pub now : ℕ
  pub marked_at : ℕ
  pub ts : String
  pub writable : Bool

-- `_SEEN`, the reports that are logged, and the lines of the audit file
pub record Observed : Type 0 where
  pub seen : List SeenEntry
  pub reports : List String
  pub audit : List String

unfoldable pub severity_text : Severity → String
severity_text critical = "critical"
severity_text high = "high"
severity_text medium = "medium"
severity_text low = "low"
severity_text info = "info"

unfoldable pub append_audit : Bool → String → List String → List String
append_audit writable line lines = if writable then lines ++ line ∷ [] else lines

-- `repr` and SHA-256 are arguments; `window` is DEDUP_WINDOW in the unit of the clock.
module _ (repr hexdigest : String → String) (window : ℕ) where
  unfoldable pub summary : Finding → String
  summary f =
      f.resource.namespace
      <> "/"
      <> f.resource.kind
      <> "/"
      <> f.resource.name
      <> " sev="
      <> severity_text f.severity
      <> " cat="
      <> f.category
      <> " fp="
      <> fingerprint hexdigest f
      <> " msg="
      <> repr f.root_cause_hypothesis

  -- `_mark_seen` and what follows it
  unfoldable pub report_new : Handling → List SeenEntry → Observed → Observed
  report_new h seen s = record {
    seen = seen ++ record { expires_at = h.marked_at + window; key = dedup_key h.finding } ∷ [];
    reports = s.reports ++ summary h.finding ∷ [];
    audit = append_audit h.writable (h.ts <> " " <> summary h.finding) s.audit;
  }

  -- the body of the loop of `_process_findings`
  unfoldable pub process_finding : Handling → Observed → Observed
  process_finding h s =
      let key = dedup_key h.finding in
      let seen = prune h.now s.seen in
      if any (λ e. e.key == key) seen then record s { seen = seen } else report_new h seen s

  unfoldable pub process_findings : List Handling → Observed → Observed
  process_findings [] s = s
  process_findings (h ∷ hs) s = process_findings hs (process_finding h s)

-- The answers from outside: the n-th call of `should_stop`, whether the health file can be written in
-- a tick, and what `run_safe` gives in a tick, with the clock's readings for each finding.
pub record Outside : Type 0 where
  pub should_stop : ℕ → Bool
  pub healthy : ℕ → Bool
  pub run_safe : ℕ → Result String (List Handling)

pub record Running : Type 0 where
  pub calls : ℕ
  pub tick : ℕ
  pub slept : ℕ
  pub observed : Observed

-- `stopped` is the end of the loop, `crashed` an OSError of the health file; `running` is the model's
-- own, a loop whose fuel is used up.
pub data Ending : Type 0 where
  stopped : Ending
  crashed : Ending
  running : Ending

module _ (repr hexdigest : String → String) (window loop_interval : ℕ) (o : Outside) where
  -- the slices of the sleep, with a call of `should_stop` before each
  unfoldable pub sleep : ℕ → Running → Running
  sleep zero s = s
  sleep (suc n) s =
      let rest = sleep n (record s { calls = s.calls + 1; slept = s.slept + 1 }) in
      if o.should_stop s.calls then record s { calls = s.calls + 1 } else rest

  unfoldable pub slices : ℕ
  slices = if eqb loop_interval 0 then 1 else loop_interval * 2

  -- An exception of `run_safe` is logged.
  unfoldable pub observe : Result String (List Handling) → Observed → Observed
  observe (raised e) s = s
  observe (ok hs) s = process_findings repr hexdigest window hs s

  -- a turn of the loop, after `should_stop` and the health file
  unfoldable pub turn : Running → Running
  turn s = sleep slices (record s { observed = observe (o.run_safe s.tick) s.observed })

  unfoldable pub run_loop : ℕ → Running → Ending × Running
  run_loop zero s = (running, s)
  run_loop (suc fuel) s =
      let begun = record s { calls = s.calls + 1; tick = s.tick + 1 } in
      let rest = run_loop fuel (turn begun) in
      if o.should_stop s.calls
      then (stopped, record s { calls = s.calls + 1 })
      else if o.healthy begun.tick
      then rest
      else (crashed, begun)

-- as the loop begins
abbrev pub begin : Observed → Running
begin s = record { calls = 0; tick = 0; slept = 0; observed = s }
