-- ===== src/Watchdog/Deadline.antt =====
-- That the watch returns.
use mcp_kubernetes_platform.Prelude.{
  ℤ, ℕ, ◌+◌, ◌-◌, ◌*◌, ◌≤◌, ◌≡◌, refl, ap, ◌∙◌, Bool, true, false, not, String, Option, none, some,
  List, [], ◌∷◌, arith, if◌then◌else◌,
}
use mcp_kubernetes_platform.Prelude.Effects.{Result, ok, raised, continue, pure, ◌>>=◌}
use mcp_kubernetes_platform.Watchdog.Data.{
  second, Pod, RawEvent, Call, sleep, monotonic, read_pod, utcnow, History, Outside, WatchError,
  api_exception, stream_exception, out_of_fuel, World, Action,
}
use mcp_kubernetes_platform.Watchdog.Checks.{
  poll_interval, is_ready, phase_is, looks_sick, read_utc, recent_warning_events, is_healed,
  is_stuck, is_still_sick,
}
use mcp_kubernetes_platform.Watchdog.Loop.{
  note_event, note_events, Polled, read_clock, pause, ask_pod, check_health, judge, round,
}

abbrev pub ran_out : {A : Type 0} → Result WatchError A → Bool
ran_out (ok a) = false
ran_out (raised out_of_fuel) = true
ran_out (raised (api_exception s)) = false
ran_out (raised (stream_exception s)) = false

note_events-calls : (es : List RawEvent) (w : World) → (note_events es w).calls ≡ w.calls
unfolding note_events note_event
note_events-calls [] w = refl
note_events-calls (e ∷ es) w = note_events-calls es (note_event e w) ∙ ground arith

-- The monotonic clock does not go back, and is ahead by the pause after a sleep.
pub record IsSteady (env : Outside) : Type 0 where
  pub onward : (h : History) (c : Call) → env.clock h ≤ env.clock (c ∷ h)
  pub rested : (h : History) (n : ℕ) → env.clock h + n ≤ env.clock (sleep n ∷ h)

module _ {env : Outside} (c : IsSteady env) where
  -- the call returns, or raises what the client raised, no earlier than it began
  record IsPrompt {A : Type 0} (w : World) (r : Result WatchError A × World) : Type 0 where
    pub fuelled : ran_out r.0 ≡ false
    pub later : env.clock w.calls ≤ env.clock r.1.calls

  IsPrompt-continue :
      {A B : Type 0} (w : World) (r : Result WatchError A) (w' : World) (f : A → Action B)
      → IsPrompt w (r, w')
      → ((a : A) (v : World) → IsPrompt v (f a v))
      → IsPrompt w (continue r f w')
  IsPrompt-continue w (ok a) w' f p k =
      let q = k a w' in record { fuelled = q.fuelled; later = omega (arith, p.later, q.later) }
  IsPrompt-continue w (raised out_of_fuel) w' f p k = record {
    fuelled = p.fuelled;
    later = p.later;
  }
  IsPrompt-continue w (raised (api_exception s)) w' f p k = record {
    fuelled = refl;
    later = p.later;
  }
  IsPrompt-continue w (raised (stream_exception s)) w' f p k = record {
    fuelled = refl;
    later = p.later;
  }

  IsPrompt-bind :
      {A B : Type 0} (m : Action A) (f : A → Action B)
      → ((w : World) → IsPrompt w (m w))
      → ((a : A) (w : World) → IsPrompt w (f a w))
      → (w : World) → IsPrompt w ((m >>= f) w)
  IsPrompt-bind m f p k w = IsPrompt-continue w (m w).0 (m w).1 f (p w) k

  IsPrompt-pure : {A : Type 0} (a : A) (w : World) → IsPrompt w (pure a w)
  IsPrompt-pure a w = record { fuelled = refl; later = omega arith }

  IsPrompt-if :
      {A : Type 0} (b : Bool) (m n : Action A)
      → ((w : World) → IsPrompt w (m w))
      → ((w : World) → IsPrompt w (n w))
      → (w : World) → IsPrompt w ((if b then m else n) w)
  IsPrompt-if true m n p q w = p w
  IsPrompt-if false m n p q w = q w

  read_utc-IsPrompt : (w : World) → IsPrompt w (read_utc env w)
  unfolding read_utc
  read_utc-IsPrompt w = record { fuelled = refl; later = c.onward w.calls utcnow }

  is_stuck-IsPrompt :
      (t : Option ℕ) (fs : List String) (w : World) → IsPrompt w (is_stuck env t fs w)
  unfolding is_stuck
  is_stuck-IsPrompt none fs w = IsPrompt-pure false w
  is_stuck-IsPrompt (some t) [] w = IsPrompt-pure false w
  is_stuck-IsPrompt (some t) (f ∷ fs) w =
      IsPrompt-bind (read_utc env) _ read_utc-IsPrompt (λ now. IsPrompt-pure _) w

  is_still_sick-IsPrompt : (pod : Pod) (d : ℤ) (w : World) → IsPrompt w (is_still_sick env pod d w)
  unfolding is_still_sick
  is_still_sick-IsPrompt pod d =
      IsPrompt-if (looks_sick pod d) _ _ (IsPrompt-pure true) (is_stuck-IsPrompt _ _)

  check_health-IsPrompt :
      (pod : Pod) (v : Polled) (b : Bool) (w : World) → IsPrompt w (check_health env pod v b w)
  unfolding check_health
  check_health-IsPrompt pod v true = IsPrompt-pure _
  check_health-IsPrompt pod v false =
      IsPrompt-bind (is_still_sick env pod v.restart_count_delta) _
        (is_still_sick-IsPrompt pod v.restart_count_delta) (λ sick. IsPrompt-pure _)

  is_healed-IsPrompt : (pod : Pod) (d : ℤ) (w : World) → IsPrompt w (is_healed env pod d w)
  unfolding is_healed recent_warning_events
  is_healed-IsPrompt pod d = IsPrompt-if (not (phase_is pod "Running")) _ _ (IsPrompt-pure false) (
      IsPrompt-if (not (is_ready pod)) _ _ (IsPrompt-pure false) (
        IsPrompt-bind _ _
          (IsPrompt-bind (read_utc env) _ read_utc-IsPrompt
            (λ now w. record { fuelled = refl; later = omega arith }))
          (λ recent. IsPrompt-pure _)))

  judge-IsPrompt :
      (baseline : ℕ) (v : Polled) (o : Option Pod) (w : World)
      → IsPrompt w (judge env baseline v o w)
  unfolding judge
  judge-IsPrompt baseline v none = IsPrompt-pure _
  judge-IsPrompt baseline v (some pod) = IsPrompt-if _ _ _ (IsPrompt-pure _) (
      IsPrompt-bind (is_healed env pod _) _ (is_healed-IsPrompt pod _)
        (check_health-IsPrompt pod _))

  ask_pod-IsPrompt : (w : World) → IsPrompt w (ask_pod env w)
  unfolding ask_pod
  ask_pod-IsPrompt w = record { fuelled = ground arith; later = c.onward w.calls read_pod }

  five_at_least : (elapsed : ℕ) → 5 ≤ poll_interval elapsed
  unfolding poll_interval
  five_at_least elapsed = ground arith

  -- a round sleeps for five seconds at least
  pub round-Progress :
      (start baseline : ℕ) (v : Polled) (w : World)
      → (ran_out (round env start baseline v w).0 ≡ false)
        × (env.clock w.calls + 5 * second ≤ env.clock (round env start baseline v w).1.calls)
  unfolding round read_clock pause
  round-Progress start baseline v w =
      let h : History = monotonic ∷ w.calls in
      let n : ℕ = poll_interval (env.clock w.calls - start) in
      let slept : World =
        note_events (env.streamed h) (record w { calls = sleep (n * second) ∷ h }) in
      let same : env.clock slept.calls ≡ env.clock (sleep (n * second) ∷ h) =
        ap env.clock
          (note_events-calls (env.streamed h) (record w { calls = sleep (n * second) ∷ h })) in
      let p : IsPrompt slept ((ask_pod env >>= judge env baseline v) slept) =
        IsPrompt-bind (ask_pod env) (judge env baseline v) ask_pod-IsPrompt
          (judge-IsPrompt baseline v) slept in
      let first : env.clock w.calls ≤ env.clock h = c.onward w.calls monotonic in
      let rest : env.clock h + n * second ≤ env.clock (sleep (n * second) ∷ h) =
        c.rested h (n * second) in
      let five : 5 ≤ n = five_at_least (env.clock w.calls - start) in
      (p.fuelled, omega (arith, p.later, same, first, rest, five))
