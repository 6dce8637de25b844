-- ===== src/Ladder/Transitions.antt =====
-- Which states `advance` leads to, on a return and on a raise.
use mcp_kubernetes_platform.Prelude.{
  ℕ, zero, suc, ◌≡◌, ◌⊎◌, inl, inr, refl, Bool, true, false, Option, none, some, ◌∷◌, arith, ltb,
  leb, ap, ◌∙◌, if◌then◌else◌, Bool-cases,
}
use mcp_kubernetes_platform.Prelude.Effects.{Result, ok, raised, ◌>>◌, continue}
use mcp_kubernetes_platform.Ladder.Types.{
  LadderState, idle, restart_issued, watch_healing, healed, still_sick, analyzing, propose_fix,
  sandbox_verifying, apply_state, escalate_state, LadderError, Outside, Settings, World, Action,
  Patch, restarted_at, monotonic, utcnow,
}
use mcp_kubernetes_platform.Ladder.Methods.{
  set_state, ask_pod, ask_events, ask_log, patch_resource, restart, sandbox_verify, analyze,
}
use mcp_kubernetes_platform.Ladder.Watch.{
  read_clock, pause, poll, judge, watch_loop, watchdog_from, watchdog, watch,
}
use mcp_kubernetes_platform.Ladder.Driver.{dispatch, advance, drive}

abbrev pub is_ok {ℓ} : {E A : Type ℓ} → Result E A → Bool
is_ok (ok a) = true
is_ok (raised e) = false

-- What one call of `advance` makes of a state, by whether it returns or raises. A call runs through the
-- states in between.
abbrev pub edge : LadderState → Bool → LadderState → Bool
edge idle true restart_issued = true
edge idle false idle = true
edge restart_issued true healed = true
edge restart_issued true still_sick = true
edge restart_issued false watch_healing = true
edge watch_healing true watch_healing = true
edge still_sick true propose_fix = true
edge still_sick false still_sick = true
edge propose_fix true apply_state = true
edge propose_fix true escalate_state = true
edge propose_fix false propose_fix = true
edge healed true healed = true
edge analyzing true analyzing = true
edge sandbox_verifying true sandbox_verifying = true
edge apply_state true apply_state = true
edge escalate_state true escalate_state = true
edge _ _ _ = false

-- A watch that returns has a verdict; one that raises leaves the state that it began with.
abbrev pub Settles : Result LadderError Unit × World → Type 0
Settles (ok _, w) = (w.session.state ≡ healed) ⊎ (w.session.state ≡ still_sick)
Settles (raised _, w) = w.session.state ≡ watch_healing

module _ (env : Outside) where
  pub poll-session : (ts : ℕ) (w : World) → (poll env ts w).1.session ≡ w.session
  unfolding poll ask_pod ask_events
  poll-session ts w = ground arith

  judge-Settles :
      (i : ℕ) (again : ℕ → Action Unit) (n : ℕ) (b : Bool) (w : World)
      → ((m : ℕ) (v : World) → v.session.state ≡ watch_healing → Settles (again m v))
      → w.session.state ≡ watch_healing
      → Settles (judge env i again n b w)
  unfolding judge set_state pause
  judge-Settles i again n b w ih h = elim (Bool-cases (leb 2 (if b then suc n else 0))) [
    | inl two ↦ rw two (inl refl)
    | inr fewer ↦ rw fewer (ih _ _ h)
  ]

  judged-Settles :
      (i : ℕ) (again : ℕ → Action Unit) (n : ℕ) (r : Result LadderError Bool) (w : World)
      → ((m : ℕ) (v : World) → v.session.state ≡ watch_healing → Settles (again m v))
      → w.session.state ≡ watch_healing
      → Settles (continue r (judge env i again n) w)
  judged-Settles i again n (ok b) w ih h = judge-Settles i again n b w ih h
  judged-Settles i again n (raised e) w ih h = h

  watch_loop-Settles :
      (fuel ts i deadline n : ℕ) (w : World)
      → w.session.state ≡ watch_healing
      → Settles (watch_loop env fuel ts i deadline n w)
  unfolding watch_loop read_clock set_state
  watch_loop-Settles zero ts i deadline n w h = h
  watch_loop-Settles (suc fuel) ts i deadline n w h =
      let w' : World = record w { calls = monotonic ∷ w.calls } in
      elim (Bool-cases (ltb (env.clock w.calls) deadline)) [
        | inl early ↦ rw early (
            judged-Settles i (watch_loop env fuel ts i deadline) n (poll env ts w').0
              (poll env ts w').1 (λ m v. watch_loop-Settles fuel ts i deadline m v)
              (ap (λ s. s.state) (poll-session ts w') ∙ h))
        | inr late ↦ rw late (inr refl)
      ]

  watchdog_from-Settles :
      (fuel i : ℕ) (o : Option ℕ) (w : World)
      → w.session.state ≡ watch_healing
      → Settles (watchdog_from env fuel i o w)
  unfolding watchdog_from read_clock
  watchdog_from-Settles fuel i none w h = h
  watchdog_from-Settles fuel i (some ts) w h = watch_loop-Settles fuel ts i _ 0 _ h

  pub watch-Settles : (fuel : ℕ) (w : World) → Settles (watch env fuel w)
  unfolding watch watchdog set_state
  watch-Settles fuel w = watchdog_from-Settles fuel 30 w.session.restart_ts _ refl

  watch-edge :
      (r : Result LadderError Unit × World)
      → Settles r
      → edge restart_issued (is_ok r.0) r.1.session.state ≡ true
  watch-edge (ok _, w) h = ground arith
  watch-edge (raised e, w) h = ground arith

  analyze-edge :
      (w : World)
      → w.session.state ≡ still_sick
      → edge still_sick
          (is_ok ((analyze env >> (λ v. (ok tt, v))) w).0)
          ((analyze env >> (λ v. (ok tt, v))) w).1.session.state
        ≡ true
  unfolding analyze ask_pod ask_log ask_events set_state
  analyze-edge w h = ground arith

  pub patch_resource-session :
      (p : Patch) (w : World) → (patch_resource env p w).1.session ≡ w.session
  unfolding patch_resource
  patch_resource-session p w = ground arith

  module _ (cfg : Settings) (fuel : ℕ) where
    restart-edge :
        (w : World)
        → w.session.state ≡ idle
        → edge idle (is_ok (restart env cfg w).0) (restart env cfg w).1.session.state ≡ true
    unfolding restart
    restart-edge w h = ground (
      arith,
      patch_resource-session (restarted_at (env.utc w.calls))
          (record w { calls = utcnow ∷ w.calls }),
    )

    dispatch-edge :
        (s : LadderState) (w : World)
        → w.session.state ≡ s
        → edge s (is_ok (dispatch cfg env fuel s w).0) (dispatch cfg env fuel s w).1.session.state
          ≡ true
    unfolding dispatch sandbox_verify
    dispatch-edge idle w h = restart-edge w h
    dispatch-edge restart_issued w h = watch-edge (watch env fuel w) (watch-Settles fuel w)
    dispatch-edge still_sick w h = analyze-edge w h
    dispatch-edge propose_fix w h = ground arith
    dispatch-edge _ w h = ground arith

    -- Whatever the outside answers, a call of `advance` that returns or raises takes the session
    -- along an edge.
    pub advance-edge :
        (w : World)
        → edge w.session.state
            (is_ok (advance cfg env fuel w).0)
            (advance cfg env fuel w).1.session.state
          ≡ true
    unfolding advance
    advance-edge w = dispatch-edge w.session.state w refl

    advance-watch_healing :
        (w : World) → w.session.state ≡ watch_healing → advance cfg env fuel w ≡ (ok tt, w)
    unfolding advance dispatch
    advance-watch_healing w h = ap (λ s. dispatch cfg env fuel s w) h

    drive-watch_healing :
        (n : ℕ) (w : World) → w.session.state ≡ watch_healing → drive cfg env fuel n w ≡ (ok tt, w)
    unfolding drive
    drive-watch_healing zero w h = refl
    drive-watch_healing (suc n) w h =
        ap (λ (r : Result LadderError Unit × World). continue r.0 (λ _. drive cfg env fuel n) r.1)
          (advance-watch_healing w h)
        ∙ drive-watch_healing n w h

    edge-interrupted :
        (s t : LadderState) (b : Bool)
        → s ≡ restart_issued
        → b ≡ false
        → edge s b t ≡ true
        → t ≡ watch_healing
    edge-interrupted s t b hs hb e = ground arith

    -- When the watch of a restarted resource raises, the session is stuck: every later loop of
    -- `advance`, however long, returns and changes nothing, so no terminal state is ever reached.
    pub drive-interrupted :
        (n : ℕ) (w : World)
        → w.session.state ≡ restart_issued
        → is_ok (advance cfg env fuel w).0 ≡ false
        → (drive cfg env fuel n (advance cfg env fuel w).1 ≡ (ok tt, (advance cfg env fuel w).1))
          × ((advance cfg env fuel w).1.session.state ≡ watch_healing)
    drive-interrupted n w h failed =
        let stuck = edge-interrupted _ _ _ h failed (advance-edge w) in
        (drive-watch_healing n _ stuck, stuck)
