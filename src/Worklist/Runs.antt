-- ===== src/Worklist/Runs.antt =====
-- The state machine of an audit run in src/worklist.py.
use mcp_kubernetes_platform.Prelude.{
  ℕ, ◌+◌, Bool, String, none, some, List, [], ◌∷◌, ◌++◌, ◌==◌, any, leb, if◌then◌else◌,
}
use mcp_kubernetes_platform.Prelude.Effects.{Exec, Result, ok, raised, modify, ◌>>=◌, ◌>>◌}
use mcp_kubernetes_platform.Worklist.Tables.{Phase, review, escalated, AuditRun, update}

abbrev pub max_iterations : ℕ
max_iterations = 5

unfoldable pub should_escalate : ℕ → Bool
should_escalate iteration_count = leb max_iterations iteration_count

-- `_row_to_run(None)`: None has no columns
pub data RunError : Type 0 where
  no_such_run : RunError

abbrev pub Runs : Type 0
Runs = List AuditRun

abbrev pub has_label : String → AuditRun → Bool
has_label label r = r.run_label == label

-- SELECT * … WHERE run_label = ?
unfoldable pub row : String → Runs → Result RunError AuditRun
row label [] = raised no_such_run
row label (r ∷ rs) = let rest = row label rs in if has_label label r then ok r else rest

fetch : String → Exec RunError Runs AuditRun
fetch label runs = (row label runs, runs)

-- `alloc` is SQLite's AUTOINCREMENT, and `now` the time of the call.
unfoldable pub ensure_audit_run : (Runs → ℕ) → String → String → Exec RunError Runs AuditRun
unfolding fetch
ensure_audit_run alloc now label =
    modify (λ runs.
      if any (has_label label) runs
      then runs
      else runs
        ++ record {
          id = alloc runs;
          run_label = label;
          phase = review;
          iteration_count = 0;
          started_at = now;
          updated_at = now;
          stopped_reason = none;
        }
          ∷ [])
    >> fetch label

unfoldable pub advance_phase : String → String → Phase → Exec RunError Runs AuditRun
unfolding fetch
advance_phase now label new_phase =
    modify (update (has_label label) (λ r. record r { phase = new_phase; updated_at = now }))
    >> fetch label

-- the assignments of `escalate`
abbrev pub mark_escalated : String → String → AuditRun → AuditRun
mark_escalated now reason r = record r {
  phase = escalated;
  stopped_reason = some reason;
  updated_at = now;
}

unfoldable pub escalate : String → String → String → Exec RunError Runs AuditRun
unfolding fetch
escalate now label reason =
    modify (update (has_label label) (mark_escalated now reason)) >> fetch label

-- the assignments of `increment_iteration`
abbrev pub count_up : String → AuditRun → AuditRun
count_up now r = record r {
  iteration_count = r.iteration_count + 1;
  phase = review;
  updated_at = now;
}

-- `then_now` is the time at which `escalate` is entered.
unfoldable pub increment_iteration : String → String → String → Exec RunError Runs AuditRun
unfolding fetch escalate
increment_iteration now then_now label =
    modify (update (has_label label) (count_up now)) >> fetch label >>= λ run.
    if should_escalate run.iteration_count
    then escalate then_now label "iteration_count >= MAX_ITERATIONS"
    else (λ runs. (ok run, runs))
