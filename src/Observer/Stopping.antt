-- ===== src/Observer/Stopping.antt =====
-- The observer's loop ends once `should_stop` answers true.
use mcp_kubernetes_platform.Prelude.{
  ℕ, zero, suc, ◌+◌, ◌≤◌, ◌<◌, ◌≡◌, ◌≢◌, true, false, String, arith, inl, inr, Bool-cases,
}
use mcp_kubernetes_platform.Observer.Loop.{
  Observed, Outside, Running, running, sleep, slices, observe, turn, run_loop, begin,
}

module _ (repr hexdigest : String → String) (window loop_interval : ℕ) (o : Outside) (n : ℕ) where
  -- each sleep comes after a call that answers false
  abbrev IsCounted : Running → Type 0
  IsCounted s = (s.slept ≤ s.calls) × (s.slept ≤ n)

  abbrev pub StopsAt : Type 0
  StopsAt = (i : ℕ) → n ≤ i → o.should_stop i ≡ true

  runs_on : (s : Running) → StopsAt → o.should_stop s.calls ≡ false → s.calls < n
  runs_on s stops go = ground (arith, go, stops s.calls)

  sleep-IsCounted :
      (k : ℕ) (s : Running)
      → StopsAt
      → IsCounted s
      → IsCounted (sleep repr hexdigest window loop_interval o k s)
        × (s.calls ≤ (sleep repr hexdigest window loop_interval o k s).calls)
  unfolding sleep
  sleep-IsCounted zero s stops h = (h, omega arith)
  sleep-IsCounted (suc k) s stops h = elim (Bool-cases (o.should_stop s.calls)) [
    | inl stop ↦ simp stop ((omega (arith, h.0), h.1), omega arith)
    | inr go ↦
        let early = runs_on s stops go in
        let later = record s { calls = s.calls + 1; slept = s.slept + 1 } in
        let rest = sleep-IsCounted k later stops (omega (arith, h.0), omega (arith, h.0, early)) in
        simp go (rest.0, omega (arith, rest.1))
  ]

  run_loop-counted :
      (fuel : ℕ) (s : Running)
      → StopsAt
      → IsCounted s
      → 1 ≤ fuel
      → n < fuel + s.calls
      → ((run_loop repr hexdigest window loop_interval o fuel s).0 ≢ running)
        × ((run_loop repr hexdigest window loop_interval o fuel s).1.slept ≤ n)
  unfolding run_loop turn
  run_loop-counted zero s stops h some_fuel enough = absurd (omega (arith, some_fuel))
  run_loop-counted (suc fuel) s stops h some_fuel enough =
      elim (Bool-cases (o.should_stop s.calls)) [
        | inl stop ↦ simp stop (cc, h.1)
        | inr go ↦ elim (Bool-cases (o.healthy (s.tick + 1))) [
          | inr ill ↦ simp (go, ill) (cc, h.1)
          | inl well ↦
              let early = runs_on s stops go in
              let begun = record s {
                calls = s.calls + 1;
                tick = s.tick + 1;
                observed =
                    observe repr hexdigest window loop_interval o (o.run_safe (s.tick + 1))
                      s.observed;
              } in
              let rest =
                sleep-IsCounted (slices repr hexdigest window loop_interval o) begun stops
                  (omega (arith, h.0), h.1) in
              simp (go, well)
                (run_loop-counted fuel _ stops rest.0 (omega (arith, early, enough))
                  (omega (arith, early, enough, rest.1)))
        ]
      ]

-- If `should_stop` answers true from its n-th call on, counted from 0, the loop stops, or crashes on
-- the health file, within n + 1 turns, and it sleeps at most n slices.
pub run_loop-stops :
    (repr hexdigest : String → String) (window loop_interval : ℕ) (o : Outside) (n : ℕ)
    (s : Observed)
    → StopsAt repr hexdigest window loop_interval o n
    → ((run_loop repr hexdigest window loop_interval o (suc n) (begin s)).0 ≢ running)
      × ((run_loop repr hexdigest window loop_interval o (suc n) (begin s)).1.slept ≤ n)
run_loop-stops repr hexdigest window loop_interval o n s stops =
    run_loop-counted repr hexdigest window loop_interval o n (suc n) (begin s) stops
      (omega arith, omega arith) (omega arith) (omega arith)
