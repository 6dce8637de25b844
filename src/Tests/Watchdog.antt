-- ===== src/Tests/Watchdog.antt =====
-- The watchdog on concrete pods.
use mcp_kubernetes_platform.Prelude.{
  pos, ℕ, ◌+◌, ◌≤◌, ◌≡◌, refl, false, String, none, some, List, [], ◌∷◌, arith,
}
use mcp_kubernetes_platform.Prelude.Effects.{ok}
use mcp_kubernetes_platform.Watchdog.Data.{
  healed, Pod, RawEvent, Call, sleep, monotonic, utcnow, read_pod, end_stream, History, Outside,
  World,
}
use mcp_kubernetes_platform.Watchdog.Checks.{
  poll_interval, total_restarts, sum_restart_counts, is_ready, recent_at, phase_is, is_zero,
  read_utc, recent_warning_events, is_healed,
}
use mcp_kubernetes_platform.Watchdog.Loop.{
  note_events, read_clock, pause, ask_pod, check_health, judge, round, next, poll_loop, settle,
  report, watch_pod, run_watchdog,
}
use mcp_kubernetes_platform.Watchdog.Verdicts.{Post}
use mcp_kubernetes_platform.Watchdog.Outcomes.{Explained, run_watchdog-Explained}
use mcp_kubernetes_platform.Watchdog.Deadline.{ran_out, IsSteady}
use mcp_kubernetes_platform.Watchdog.Returns.{run_watchdog-ran_out}

abbrev running : Pod
running = record {
  phase = some "Running";
  node_name = some "node-1";
  container_statuses = some (record { restart_count = some 2; waiting = none } ∷ []);
  init_container_statuses = none;
  conditions = some (record { type = "Ready"; status = "True" } ∷ []);
  deletion_timestamp = none;
  finalizers = none;
}

-- a clock that moves by the sleeps alone
abbrev slept_so_far : History → ℕ
slept_so_far [] = 0
slept_so_far (sleep n ∷ h) = slept_so_far h + n
slept_so_far (_ ∷ h) = slept_so_far h

abbrev quiet : Outside
quiet = record {
  clock = slept_so_far;
  utc = λ h. 1000000000;
  pod = λ h. ok running;
  streamed = λ h. [];
  stream_error = λ h. none;
}

abbrev start : World
start = record { calls = []; events_seen = []; event_timestamps_seen = [] }

-- a pod that is running and ready heals at the first reading, five seconds after the start
heals :
    (run_watchdog quiet 61 300 start).0
    ≡ ok (record {
      result = healed;
      duration_seconds = 5000000;
      events_seen = [];
      restart_count_delta = pos 0;
      final_phase = "Running";
    })
unfolding run_watchdog watch_pod report settle poll_loop next round judge check_health ask_pod pause
    read_clock note_events is_healed recent_warning_events read_utc recent_at is_ready phase_is
    is_zero sum_restart_counts total_restarts poll_interval
heals = refl

run_watchdog-Explained_example :
    Post (Explained quiet (monotonic ∷ start.calls)) (run_watchdog quiet 61 300 start)
run_watchdog-Explained_example = run_watchdog-Explained quiet 61 300 start

quiet-onward : (h : History) (c : Call) → slept_so_far h ≤ slept_so_far (c ∷ h)
quiet-onward h monotonic = omega arith
quiet-onward h utcnow = omega arith
quiet-onward h read_pod = omega arith
quiet-onward h end_stream = omega arith
quiet-onward h (sleep n) = omega arith

quiet-IsSteady : IsSteady quiet
quiet-IsSteady = record { onward = quiet-onward; rested = λ h n. omega arith }

run_watchdog-ran_out_example : ran_out (run_watchdog quiet 61 300 start).0 ≡ false
run_watchdog-ran_out_example = run_watchdog-ran_out quiet-IsSteady 60 300 start (omega arith)

abbrev raw : String → RawEvent
raw uid = record {
  uid = uid;
  reason = some "BackOff";
  message = none;
  last_timestamp = none;
  count = some 1;
}

abbrev stream : List RawEvent
stream = raw "a" ∷ raw "b" ∷ raw "a" ∷ []
