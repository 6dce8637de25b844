-- ===== src/Watchdog/Outcomes.antt =====
-- The verdict of a whole watch.
use mcp_kubernetes_platform.Prelude.{
  ap, ◌∙◌, sym, refl, [], ℕ, zero, suc, ◌+◌, ◌*◌, ◌≡◌, true, ◌&&◌, Option, none, some, ◌∷◌, arith,
  ◌==◌, ltb, text_or, inl, inr, Bool-cases, eq_iff,
}
use mcp_kubernetes_platform.Prelude.Effects.{Result, ok, raised}
use mcp_kubernetes_platform.Watchdog.Data.{
  read_pod, second, Pod, History, WatchResult, Outside, WatchError, World, Action, difference,
  end_stream, monotonic,
}
use mcp_kubernetes_platform.Watchdog.Checks.{sum_restart_counts, is_healed}
use mcp_kubernetes_platform.Watchdog.Loop.{
  Polled, Round, no_node, read_clock, ask_pod, pause, judge, round, next, poll_loop, settle, report,
  watch_pod, run_watchdog,
}
use mcp_kubernetes_platform.Watchdog.Verdicts.{
  Post, Post-bind, Backed, RoundBacked, Found, IsGone, ask_pod-Found, Healthy, is_healed-Healthy,
  check_health-Backed,
}

module _ (env : Outside) (begun : History) (first : Pod)
    (first_read : env.pod begun ≡ ok first) where
  abbrev baseline : ℕ
  baseline = sum_restart_counts first

  judge-Backed :
      (v : Polled) (found : Option Pod) (w : World)
      → Found env found w
      → Post (RoundBacked env begun) (judge env baseline v found w)
  unfolding judge
  judge-Backed v none w gone = gone
  judge-Backed v (some pod) w (h, read, calls) =
      let polled : Polled = record {
        final_phase = text_or pod.phase "Unknown";
        restart_count_delta = difference (sum_restart_counts pod) baseline;
      } in
      elim (Bool-cases (polled.final_phase == "Unknown" && no_node pod)) [
        | inl away ↦
            let unknown : polled.final_phase == "Unknown" ≡ true = ground (arith, away) in
            rw away (ground (arith, unknown, eq_iff polled.final_phase "Unknown"))
        | inr there ↦ rw there (
            Post-bind (Healthy env pod polled.restart_count_delta (env.utc (read_pod ∷ h)))
              (RoundBacked env begun) _
              (check_health-Backed env begun first pod polled h first_read refl read)
              (is_healed env pod polled.restart_count_delta w).0
              (is_healed env pod polled.restart_count_delta w).1
              (is_healed-Healthy env pod polled.restart_count_delta (env.utc (read_pod ∷ h)) w
                (ap env.utc calls)))
      ]

  round-Backed :
      (start : ℕ) (v : Polled) (w : World)
      → Post (RoundBacked env begun) (round env start baseline v w)
  unfolding round read_clock pause
  round-Backed start v w =
      Post-bind (Found env) (RoundBacked env begun) (judge env baseline v) (judge-Backed v) _ _
        (ask_pod-Found env _)

  next-Backed :
      (again : Polled → Action Round)
      → ((v : Polled) (w : World) → Post (RoundBacked env begun) (again v w))
      → (r : Round) (w : World) → RoundBacked env begun r w
      → Post (RoundBacked env begun) (next env again r w)
  unfolding next
  next-Backed again ih (none, v) w h = ih v w
  next-Backed again ih (some verdict, v) w h = h

  loop-Backed :
      (fuel start deadline : ℕ) (v : Polled) (w : World)
      → Post (RoundBacked env begun) (poll_loop env fuel start deadline baseline v w)
  unfolding poll_loop read_clock
  loop-Backed zero start deadline v w = tt
  loop-Backed (suc fuel) start deadline v w = elim (Bool-cases (ltb (env.clock w.calls) deadline)) [
    | inl early ↦ rw early (
        Post-bind (RoundBacked env begun) (RoundBacked env begun)
          (next env (poll_loop env fuel start deadline baseline))
          (next-Backed (poll_loop env fuel start deadline baseline)
            (loop-Backed fuel start deadline))
          _ _ (round-Backed start v _))
    | inr late ↦ rw late tt
  ]

abbrev earlier : History → History
earlier [] = []
earlier (c ∷ h) = h

module _ (env : Outside) (begun : History) where
  settle-Backed :
      (r : Result WatchError Round) (w : World)
      → Post (RoundBacked env begun) (r, w)
      → Post (RoundBacked env begun) (settle env r w)
  unfolding settle
  settle-Backed r w h = go (env.stream_error w.calls) r h
    where
      go :
          (o : Option ℕ) (r : Result WatchError Round)
          → Post (RoundBacked env begun) (r, w)
          → Post (RoundBacked env begun) (
            elim o [ none ↦ r | some status ↦ raised (WatchError.stream_exception status) ],
            record w { calls = end_stream ∷ w.calls },
          )
      go none (ok a) h = h
      go none (raised e) h = tt
      go (some status) r h = tt

  -- What the result's verdict rests on.
  abbrev pub Explained : WatchResult → World → Type 0
  Explained r w = Backed env begun (some r.result) r.restart_count_delta r.final_phase r.events_seen

  report-Explained :
      (start : ℕ) (r : Round) (w : World)
      → RoundBacked env begun r w
      → Post Explained (report env start r w)
  unfolding report read_clock
  report-Explained start (none, v) w h = tt
  report-Explained start (some verdict, v) w h = h

  -- the first reading, after the calls `begun`
  abbrev FirstFound : Option Pod → Type 0
  FirstFound none = IsGone env
  FirstFound (some p) = env.pod begun ≡ ok p

  watch_pod-Explained :
      (fuel start deadline : ℕ) (o : Option Pod) (w : World)
      → FirstFound o
      → Post Explained (watch_pod env fuel start deadline o w)
  unfolding watch_pod
  watch_pod-Explained fuel start deadline none w gone = gone
  watch_pod-Explained fuel start deadline (some pod) w first_read =
      Post-bind (RoundBacked env begun) Explained (report env start) (report-Explained start) _ _
        (settle-Backed _ _ (loop-Backed env begun pod first_read fuel start deadline _ w))

module _ (env : Outside) where
  first-Found :
      (h : History) (r : Result WatchError (Option Pod)) (v : World)
      → v.calls ≡ read_pod ∷ h
      → Post (Found env) (r, v)
      → Post (λ o v. FirstFound env h o) (r, v)
  first-Found h (raised e) v same found = tt
  first-Found h (ok none) v same gone = gone
  first-Found h (ok (some p)) v same (k, read, calls) =
      let here : k ≡ h = ap earlier (sym calls ∙ same) in ap env.pod (sym here) ∙ read

  -- A watch that returns never says `timeout`. It says `healed` only of a pod that was read as
  -- running and ready, with as many restarts in all its containers as the pod had that was read at the
  -- start, and, right after that reading, no warning of the last minute among the events that it
  -- returns; `deleted` only after a reading that found no pod; and `namespace-deleted` only with
  -- the final phase "Unknown".
  pub run_watchdog-Explained :
      (fuel timeout_seconds : ℕ) (w : World)
      → Post (Explained env (monotonic ∷ w.calls)) (run_watchdog env fuel timeout_seconds w)
  unfolding run_watchdog read_clock ask_pod
  run_watchdog-Explained fuel timeout_seconds w =
      let begun : History = monotonic ∷ w.calls in
      let v : World = record w { calls = begun } in
      Post-bind (λ o v. FirstFound env begun o) (Explained env begun)
        (watch_pod env fuel (env.clock w.calls) (env.clock w.calls + timeout_seconds * second))
        (watch_pod-Explained env begun fuel (env.clock w.calls)
          (env.clock w.calls + timeout_seconds * second))
        _ _ (first-Found begun (ask_pod env v).0 (ask_pod env v).1 refl (ask_pod-Found env v))
