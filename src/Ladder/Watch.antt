-- ===== src/Ladder/Watch.antt =====
-- `watch` and `_watchdog` of `RemediationLadder`. A round of the poll loop is `poll`; the loop takes
-- fuel, and `out_of_fuel` stands for a loop that was not given enough of it.
use mcp_kubernetes_platform.Prelude.{
  ℕ, zero, suc, ◌+◌, ◌*◌, Bool, true, false, ◌&&◌, Option, none, some, List, [], ◌∷◌, ◌==◌, ltb,
  leb, all, if◌then◌else◌,
}
use mcp_kubernetes_platform.Prelude.Effects.{
  Result, ok, raised, pure, raise, gets, lift, ◌>>=◌, ◌>>◌,
}
use mcp_kubernetes_platform.Ladder.Types.{
  second, watch_healing, healed, still_sick, LadderError, assertion_error, type_error, out_of_fuel,
  Timestamp, Event, monotonic, sleep, Outside, watch_timeout_seconds, Action,
}
use mcp_kubernetes_platform.Ladder.Methods.{ask_pod, ask_events, set_state}

-- `stamp > restart_ts`: an aware time does not compare with a naive one.
after_restart : ℕ → Timestamp → Result LadderError Bool
after_restart restart_ts stamp =
    if stamp.aware then raised type_error else ok (ltb restart_ts stamp.at)

-- the condition of the comprehension
is_new_warning : ℕ → Event → Result LadderError Bool
unfolding after_restart
is_new_warning restart_ts e =
    if e.type == "Warning"
    then elim e.last_timestamp [ none ↦ ok false | some t ↦ after_restart restart_ts t ]
    else ok false

cons_if :
    Event
    → Result LadderError Bool
    → Result LadderError (List Event)
    → Result LadderError (List Event)
cons_if e (raised x) rest = raised x
cons_if e (ok b) (raised x) = raised x
cons_if e (ok b) (ok es) = if b then ok (e ∷ es) else ok es

unfoldable pub new_warnings : ℕ → List Event → Result LadderError (List Event)
unfolding cons_if is_new_warning
new_warnings restart_ts [] = ok []
new_warnings restart_ts (e ∷ es) =
    cons_if e (is_new_warning restart_ts e) (new_warnings restart_ts es)

is_nil : List Event → Bool
is_nil [] = true
is_nil (e ∷ es) = false

module _ (env : Outside) where
  -- time.monotonic()
  unfoldable pub read_clock : Action ℕ
  read_clock w = (ok (env.clock w.calls), record w { calls = monotonic ∷ w.calls })

  -- asyncio.sleep(n)
  unfoldable pub pause : ℕ → Action Unit
  pause n w = (ok tt, record w { calls = sleep n ∷ w.calls })

  -- One round's reading of the pod and its events: is all ready, with no new warning?
  unfoldable pub poll : ℕ → Action Bool
  unfolding is_nil
  poll restart_ts = do
    statuses ← ask_pod env
    events ← ask_events env
    fresh ← lift (new_warnings restart_ts events)
    pure (all (λ cs. cs.ready) statuses && is_nil fresh)

  -- What follows a reading: two healthy ones in a row end the watch, and else the loop sleeps.
  unfoldable pub judge : ℕ → (ℕ → Action Unit) → ℕ → Bool → Action Unit
  judge poll_interval again consecutive healthy =
      let counted : ℕ = if healthy then suc consecutive else 0 in
      if leb 2 counted
      then set_state env healed
      else (pause (poll_interval * second) >> again counted)

  -- the `while` loop of `_watchdog`
  unfoldable pub watch_loop : ℕ → ℕ → ℕ → ℕ → ℕ → Action Unit
  watch_loop zero restart_ts poll_interval deadline consecutive = raise out_of_fuel
  watch_loop (suc fuel) restart_ts poll_interval deadline consecutive =
      let again = watch_loop fuel restart_ts poll_interval deadline in
      read_clock >>= λ now.
      if ltb now deadline
      then (poll restart_ts >>= judge poll_interval again consecutive)
      else set_state env still_sick

  unfoldable pub watchdog_from : ℕ → ℕ → Option ℕ → Action Unit
  watchdog_from fuel poll_interval none = raise assertion_error
  watchdog_from fuel poll_interval (some restart_ts) = read_clock >>= λ now.
      watch_loop fuel restart_ts poll_interval (now + watch_timeout_seconds * second) 0

  -- `_watchdog`
  unfoldable pub watchdog : ℕ → ℕ → Action Unit
  watchdog fuel poll_interval =
      gets (λ w. w.session.restart_ts) >>= watchdog_from fuel poll_interval

  -- `watch`, with the default poll interval
  unfoldable pub watch : ℕ → Action Unit
  watch fuel = set_state env watch_healing >> watchdog fuel 30
