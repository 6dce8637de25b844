-- ===== src/Watchdog/Loop.antt =====
-- `run_watchdog`: the task that reads the event stream, and the poll loop on fuel.
use mcp_kubernetes_platform.Prelude.{
  pos, ℤ, ℕ, zero, suc, ◌+◌, ◌-◌, ◌*◌, Bool, true, false, ◌&&◌, String, Option, none, some, List,
  [], ◌∷◌, ◌++◌, ◌==◌, is_in, ltb, eqb, get_or, text_or, if◌then◌else◌,
}
use mcp_kubernetes_platform.Prelude.Effects.{Result, ok, raised, pure, raise, gets, ◌>>=◌, ◌>>◌}
use mcp_kubernetes_platform.Watchdog.Data.{
  second, difference, Verdict, healed, still_sick, deleted, namespace_deleted, Pod, RawEvent,
  WatchResult, monotonic, read_pod, end_stream, sleep, Outside, WatchError, api_exception,
  stream_exception, out_of_fuel, World, Action,
}
use mcp_kubernetes_platform.Watchdog.Checks.{
  poll_interval, sum_restart_counts, is_healed, is_still_sick,
}

-- The body of the loop in `stream_events`: an event whose uid was seen is dropped.
unfoldable pub note_event : RawEvent → World → World
note_event e w = if is_in e.uid w.event_timestamps_seen then w else record w {
  events_seen =
      w.events_seen
      ++ record {
        reason = e.reason;
        message = e.message;
        last_timestamp = e.last_timestamp;
        count = e.count;
      }
        ∷ [];
  event_timestamps_seen = e.uid ∷ w.event_timestamps_seen;
}

unfoldable pub note_events : List RawEvent → World → World
note_events [] w = w
note_events (e ∷ es) w = note_events es (note_event e w)

-- the variables of the poll loop
pub record Polled : Type 0 where
  pub final_phase : String
  pub restart_count_delta : ℤ

-- What a round leaves: a verdict that breaks the loop, or none.
abbrev pub Round : Type 0
Round = Option Verdict × Polled

-- a node name that is None or empty
abbrev pub no_node : Pod → Bool
no_node pod = text_or pod.node_name "" == ""

module _ (env : Outside) where
  -- time.monotonic()
  unfoldable pub read_clock : Action ℕ
  read_clock w = (ok (env.clock w.calls), record w { calls = monotonic ∷ w.calls })

  -- asyncio.sleep, during which the other task runs
  unfoldable pub pause : ℕ → Action Unit
  pause n w = (
    ok tt,
    note_events (env.streamed w.calls) (record w { calls = sleep (n * second) ∷ w.calls }),
  )

  -- read_namespaced_pod; `none` is a 404
  unfoldable pub ask_pod : Action (Option Pod)
  ask_pod w = (
    elim (env.pod w.calls) [
      | ok pod ↦ ok (some pod)
      | raised status ↦ if eqb status 404 then ok none else raised (api_exception status)
    ],
    record w { calls = read_pod ∷ w.calls },
  )

  abbrev pub verdict_if : Polled → Verdict → Bool → Round
  verdict_if v verdict b = (if b then some verdict else none, v)

  -- the two tests at the end of a round
  unfoldable pub check_health : Pod → Polled → Bool → Action Round
  check_health pod v true = pure (some healed, v)
  check_health pod v false =
      is_still_sick env pod v.restart_count_delta >>= λ sick. pure (verdict_if v still_sick sick)

  -- what follows the reading of the pod
  unfoldable pub judge : ℕ → Polled → Option Pod → Action Round
  judge baseline v none = pure (some deleted, v)
  judge baseline v (some pod) =
      let polled : Polled = record {
        final_phase = text_or pod.phase "Unknown";
        restart_count_delta = difference (sum_restart_counts pod) baseline;
      } in
      if polled.final_phase == "Unknown" && no_node pod
      then pure (some namespace_deleted, polled)
      else (is_healed env pod polled.restart_count_delta >>= check_health pod polled)

  -- the body of the loop
  unfoldable pub round : ℕ → ℕ → Polled → Action Round
  round start baseline v = do
    now ← read_clock
    pause (poll_interval (now - start))
    found ← ask_pod
    judge baseline v found

  -- on a verdict the loop ends, and else it goes on with the variables
  unfoldable pub next : (Polled → Action Round) → Round → Action Round
  next again (none, v) = again v
  next again (some verdict, v) = pure (some verdict, v)

  unfoldable pub poll_loop : ℕ → ℕ → ℕ → ℕ → Polled → Action Round
  poll_loop zero start deadline baseline v = raise out_of_fuel
  poll_loop (suc fuel) start deadline baseline v =
      let again = poll_loop fuel start deadline baseline in
      read_clock >>= λ now.
      if ltb now deadline then (round start baseline v >>= next again) else pure (none, v)

  -- The `finally` clause: awaiting the cancelled task may raise, in place of what came before.
  unfoldable pub settle : Result WatchError Round → Action Round
  settle r w = (
    elim (env.stream_error w.calls) [ none ↦ r | some status ↦ raised (stream_exception status) ],
    record w { calls = end_stream ∷ w.calls },
  )

  -- no verdict is a time-out
  abbrev pub verdict_of : Option Verdict → Verdict
  verdict_of o = get_or o still_sick

  unfoldable pub report : ℕ → Round → Action WatchResult
  report start (o, v) = do
    now ← read_clock
    seen ← gets (λ w. w.events_seen)
    pure (record {
      result = verdict_of o;
      duration_seconds = now - start;
      events_seen = seen;
      restart_count_delta = v.restart_count_delta;
      final_phase = v.final_phase;
    })

  unfoldable pub watch_pod : ℕ → ℕ → ℕ → Option Pod → Action WatchResult
  watch_pod fuel start deadline none = pure (record {
    result = deleted;
    duration_seconds = 0;
    events_seen = [];
    restart_count_delta = pos 0;
    final_phase = "Unknown";
  })
  watch_pod fuel start deadline (some pod) =
      let first : Polled = record {
        final_phase = text_or pod.phase "Unknown";
        restart_count_delta = pos 0;
      } in
      (λ w.
        let (r, w') = poll_loop fuel start deadline (sum_restart_counts pod) first w in settle r w')
      >>= report start

  unfoldable pub run_watchdog : ℕ → ℕ → Action WatchResult
  run_watchdog fuel timeout_seconds = do
    start ← read_clock
    found ← ask_pod
    watch_pod fuel start (start + timeout_seconds * second) found
