-- ===== src/Watchdog/Returns.antt =====
-- That enough rounds are given.
use mcp_kubernetes_platform.Prelude.{
  ℕ, zero, suc, ◌+◌, ◌*◌, ◌≤◌, ◌≡◌, refl, false, Option, none, some, ◌∷◌, arith, ltb, inl, inr,
  Bool-cases,
}
use mcp_kubernetes_platform.Prelude.Effects.{Result, ok, raised, continue}
use mcp_kubernetes_platform.Watchdog.Data.{
  second, Pod, monotonic, read_pod, Outside, WatchError, api_exception, stream_exception,
  out_of_fuel, World, Action,
}
use mcp_kubernetes_platform.Watchdog.Checks.{sum_restart_counts}
use mcp_kubernetes_platform.Watchdog.Loop.{
  Polled, Round, read_clock, ask_pod, round, next, poll_loop, settle, report, watch_pod,
  run_watchdog,
}
use mcp_kubernetes_platform.Watchdog.Deadline.{ran_out, IsSteady, round-Progress}

-- A call that does not run out of fuel is followed by one that does not.
continue-ran_out :
    {A B : Type 0} (f : A → Action B) (r : Result WatchError A) (w : World)
    → ran_out r ≡ false
    → ((a : A) → ran_out (f a w).0 ≡ false)
    → ran_out (continue r f w).0 ≡ false
continue-ran_out f (ok a) w h k = k a
continue-ran_out f (raised out_of_fuel) w h k = cc
continue-ran_out f (raised (api_exception s)) w h k = refl
continue-ran_out f (raised (stream_exception s)) w h k = refl

module _ {env : Outside} (c : IsSteady env) where
  next-ran_out :
      (again : Polled → Action Round) (w : World)
      → ((v : Polled) → ran_out (again v w).0 ≡ false)
      → (r : Round) → ran_out (next env again r w).0 ≡ false
  unfolding next
  next-ran_out again w k (none, v) = k v
  next-ran_out again w k (some verdict, v) = refl

  -- each round but the last sleeps for five seconds
  loop-ran_out :
      (fuel start deadline baseline : ℕ) (v : Polled) (w : World)
      → deadline ≤ env.clock w.calls + fuel * (5 * second)
      → ran_out (poll_loop env (suc fuel) start deadline baseline v w).0 ≡ false
  unfolding poll_loop read_clock
  loop-ran_out zero start deadline baseline v w enough = rw late refl
    where
      late : ltb (env.clock w.calls) deadline ≡ false
      late = ground (arith, enough)
  loop-ran_out (suc fuel) start deadline baseline v w enough =
      elim (Bool-cases (ltb (env.clock w.calls) deadline)) [
        | inr late ↦ rw late refl
        | inl early ↦
            let v1 : World = record w { calls = monotonic ∷ w.calls } in
            let (fine, later) = round-Progress c start baseline v v1 in
            let first : env.clock w.calls ≤ env.clock v1.calls = c.onward w.calls monotonic in
            let v2 : World = (round env start baseline v v1).1 in
            rw early (
              continue-ran_out (next env (poll_loop env (suc fuel) start deadline baseline))
                (round env start baseline v v1).0 v2 fine
                (next-ran_out (poll_loop env (suc fuel) start deadline baseline) v2 (λ u.
                  loop-ran_out fuel start deadline baseline u v2
                    (omega (arith, enough, later, first)))))
      ]

  settle-ran_out :
      (r : Result WatchError Round) (w : World)
      → ran_out r ≡ false
      → ran_out (settle env r w).0 ≡ false
  unfolding settle
  settle-ran_out r w h = go (env.stream_error w.calls)
    where
      go :
          (o : Option ℕ)
          → ran_out (elim o [ none ↦ r | some status ↦ raised (stream_exception status) ]) ≡ false
      go none = h
      go (some status) = refl

  watch_pod-ran_out :
      (fuel start deadline : ℕ) (o : Option Pod) (w : World)
      → deadline ≤ env.clock w.calls + fuel * (5 * second)
      → ran_out (watch_pod env (suc fuel) start deadline o w).0 ≡ false
  unfolding watch_pod report read_clock
  watch_pod-ran_out fuel start deadline none w enough = refl
  watch_pod-ran_out fuel start deadline (some pod) w enough =
      continue-ran_out (report env start) _ _
        (settle-ran_out _ _ (loop-ran_out fuel start deadline (sum_restart_counts pod) _ w enough))
        (λ r. refl)

  ask_pod-ran_out : (w : World) → ran_out (ask_pod env w).0 ≡ false
  unfolding ask_pod
  ask_pod-ran_out w = ground arith

  ask_pod-later : (w : World) → env.clock w.calls ≤ env.clock (ask_pod env w).1.calls
  unfolding ask_pod
  ask_pod-later w = c.onward w.calls read_pod

  -- One round for each five seconds of the time-out, and one more, are enough: the watch then
  -- returns a result or raises what the client or the event stream raised.
  pub run_watchdog-ran_out :
      (fuel timeout_seconds : ℕ) (w : World)
      → timeout_seconds ≤ 5 * fuel
      → ran_out (run_watchdog env (suc fuel) timeout_seconds w).0 ≡ false
  unfolding run_watchdog read_clock
  run_watchdog-ran_out fuel timeout_seconds w enough =
      let start : ℕ = env.clock w.calls in
      let w1 : World = record w { calls = monotonic ∷ w.calls } in
      continue-ran_out (watch_pod env (suc fuel) start (start + timeout_seconds * second))
        (ask_pod env w1).0 (ask_pod env w1).1 (ask_pod-ran_out w1)
        (λ o.
          watch_pod-ran_out fuel start (start + timeout_seconds * second) o (ask_pod env w1).1
            (omega (arith, enough, c.onward w.calls monotonic, ask_pod-later w1)))
