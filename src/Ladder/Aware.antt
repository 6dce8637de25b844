-- ===== src/Ladder/Aware.antt =====
-- The watch against events whose times carry an offset from UTC, as the Kubernetes client gives them.
use mcp_kubernetes_platform.Prelude.{
  ℕ, suc, ◌+◌, ◌*◌, ◌<◌, ◌≡◌, inl, inr, ap, ◌∙◌, Bool, true, ◌&&◌, some, List, [], ◌∷◌, arith, any,
  lt→ltb, Bool-cases, ◌==◌,
}
use mcp_kubernetes_platform.Prelude.Effects.{Result, ok, raised, continue}
use mcp_kubernetes_platform.Ladder.Types.{
  second, restart_issued, watch_healing, LadderError, type_error, Event, utcnow, monotonic,
  read_pod, History, Outside, Settings, World, watch_timeout_seconds,
}
use mcp_kubernetes_platform.Ladder.Methods.{set_state, ask_pod, ask_events}
use mcp_kubernetes_platform.Ladder.Watch.{
  new_warnings, read_clock, poll, judge, watch_loop, watchdog_from, watchdog, watch,
}
use mcp_kubernetes_platform.Ladder.Driver.{dispatch, advance, drive}
use mcp_kubernetes_platform.Ladder.Transitions.{is_ok, drive-interrupted}
use mcp_kubernetes_platform.Ladder.Termination.{ok-value, is_aware, has_aware_warning}

new_warnings-aware :
    (ts : ℕ) (es : List Event)
    → has_aware_warning es ≡ true
    → new_warnings ts es ≡ raised type_error
unfolding new_warnings
new_warnings-aware ts [] h = cc
new_warnings-aware ts (e ∷ es) h =
    elim (Bool-cases (any (λ e. e.type == "Warning" && is_aware e.last_timestamp) es)) [
      | inl later ↦ ground (arith, new_warnings-aware ts es later)
      | inr here ↦ ground arith
    ]

-- What is asked of the outside: the pod is there to read, and the events hold such a warning.
pub record ReportsAware (env : Outside) : Type 0 where
  pub pods : (h : History) → is_ok (env.pod h) ≡ true
  pub listed : (h : History) → is_ok (env.events h) ≡ true
  pub aware : (h : History) (es : List Event) → env.events h ≡ ok es → has_aware_warning es ≡ true

module _ {env : Outside} (c : ReportsAware env) where
  poll-aware : (ts : ℕ) (w : World) → (poll env ts w).0 ≡ raised type_error
  unfolding poll ask_pod ask_events
  poll-aware ts w =
      let h : History = read_pod w.session.resource.namespace w.session.resource.name ∷ w.calls in
      let (es, listed) = ok-value (env.events h) (c.listed h) in
      ground (arith, c.pods w.calls, listed, new_warnings-aware ts es (c.aware h es listed))

  watch_loop-aware :
      (fuel ts i deadline n : ℕ) (w : World)
      → env.clock w.calls < deadline
      → (watch_loop env (suc fuel) ts i deadline n w).0 ≡ raised type_error
  unfolding watch_loop read_clock
  watch_loop-aware fuel ts i deadline n w early =
      let w' : World = record w { calls = monotonic ∷ w.calls } in
      rw (lt→ltb _ _ early) (
        ap
          (λ (r : Result LadderError Bool).
            (continue r (judge env i (watch_loop env fuel ts i deadline) n) (poll env ts w').1).0)
          (poll-aware ts w'))

  watch-aware :
      (fuel ts : ℕ) (w : World)
      → w.session.restart_ts ≡ some ts
      → env.clock (monotonic ∷ utcnow ∷ w.calls)
        < env.clock (utcnow ∷ w.calls) + watch_timeout_seconds * second
      → (watch env (suc fuel) w).0 ≡ raised type_error
  unfolding watch watchdog watchdog_from set_state read_clock
  watch-aware fuel ts w e early = simp e (watch_loop-aware fuel ts 30 _ 0 _ early)

  advance-raises :
      (cfg : Settings) (fuel ts : ℕ) (w : World)
      → w.session.state ≡ restart_issued
      → w.session.restart_ts ≡ some ts
      → env.clock (monotonic ∷ utcnow ∷ w.calls)
        < env.clock (utcnow ∷ w.calls) + watch_timeout_seconds * second
      → (advance cfg env (suc fuel) w).0 ≡ raised type_error
  unfolding advance dispatch
  advance-raises cfg fuel ts w h e early =
      ap (λ s. (dispatch cfg env (suc fuel) s w).0) h ∙ watch-aware fuel ts w e early

  -- If each listing holds a warning whose time has an offset, the watch of a restarted session
  -- raises TypeError at its first reading, and every later loop of `advance` finds the session
  -- in WATCH_HEALING and leaves it there.
  pub advance-aware :
      (cfg : Settings) (fuel ts n : ℕ) (w : World)
      → w.session.state ≡ restart_issued
      → w.session.restart_ts ≡ some ts
      → env.clock (monotonic ∷ utcnow ∷ w.calls)
        < env.clock (utcnow ∷ w.calls) + watch_timeout_seconds * second
      → ((advance cfg env (suc fuel) w).0 ≡ raised type_error)
        × ((drive cfg env (suc fuel) n (advance cfg env (suc fuel) w).1).1.session.state
            ≡ watch_healing)
  advance-aware cfg fuel ts n w h e early =
      let raises = advance-raises cfg fuel ts w h e early in
      let stuck = drive-interrupted env cfg (suc fuel) n w h (ap is_ok raises) in
      (raises, ap (λ r. r.1.session.state) stuck.0 ∙ stuck.1)
