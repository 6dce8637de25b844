-- ===== src/Ladder/Liveness.antt =====
-- A session that starts idle reaches a terminal state in four advances.
use mcp_kubernetes_platform.Prelude.{
  ℕ, zero, suc, ◌+◌, ◌≤◌, ◌<◌, ◌≡◌, inl, inr, refl, ap, ◌∙◌, Bool, true, false, some, [], ◌∷◌,
  arith, get_or,
}
use mcp_kubernetes_platform.Prelude.Effects.{Result, ok, raised, continue}
use mcp_kubernetes_platform.Ladder.Types.{
  LadderState, idle, restart_issued, healed, still_sick, propose_fix, apply_state, escalate_state,
  LadderError, Patch, utcnow, restarted_at, read_pod, read_log, Outside, Settings, World,
}
use mcp_kubernetes_platform.Ladder.Eligibility.{is_trading}
use mcp_kubernetes_platform.Ladder.Methods.{
  set_state, ask_pod, ask_events, ask_log, patch_resource, restart, sandbox_verify, scan, unscanned,
  analyze,
}
use mcp_kubernetes_platform.Ladder.Driver.{dispatch, advance, drive}
use mcp_kubernetes_platform.Ladder.Quiet.{patches, watch-IsQuiet}
use mcp_kubernetes_platform.Ladder.Transitions.{is_ok, patch_resource-session}
use mcp_kubernetes_platform.Ladder.Termination.{ok-value, IsCooperative, watch-verdict}

-- The states at which the documentation ends the loop.
abbrev pub is_terminal : LadderState → Bool
is_terminal healed = true
is_terminal apply_state = true
is_terminal escalate_state = true
is_terminal _ = false

abbrev Ends : Result LadderError Unit × World → Type 0
Ends (r, w) = (is_ok r ≡ true) × (is_terminal w.session.state ≡ true)

module _ (cfg : Settings) {env : Outside} (c : IsCooperative env) (f : ℕ) (enough : 10 ≤ f) where
  abbrev step : World → Result LadderError Unit × World
  step = advance cfg env (suc f)

  drive-step :
      (n : ℕ) (r : Result LadderError Unit × World)
      → is_ok r.0 ≡ true
      → Ends (drive cfg env (suc f) n r.1)
      → Ends (continue r.0 (λ _. drive cfg env (suc f) n) r.1)
  drive-step n (ok _, w) e h = h
  drive-step n (raised x, w) e h = cc

  Ends-suc :
      (n : ℕ) (w : World)
      → is_ok (step w).0 ≡ true
      → Ends (drive cfg env (suc f) n (step w).1)
      → Ends (drive cfg env (suc f) (suc n) w)
  unfolding drive
  Ends-suc n w e h = drive-step n (step w) e h

  step_terminal :
      (s : LadderState) (w : World)
      → is_terminal s ≡ true
      → dispatch cfg env (suc f) s w ≡ (ok tt, w)
  unfolding dispatch
  step_terminal healed w h = refl
  step_terminal apply_state w h = refl
  step_terminal escalate_state w h = refl
  step_terminal _ w h = cc

  advance-dispatch :
      (s : LadderState) (w : World) → w.session.state ≡ s → step w ≡ dispatch cfg env (suc f) s w
  unfolding advance
  advance-dispatch s w h = ap (λ t. dispatch cfg env (suc f) t w) h

  -- To show what a step does it is enough to see what the state's method does.
  Ends-dispatch :
      (n : ℕ) (s : LadderState) (w : World)
      → w.session.state ≡ s
      → is_ok (dispatch cfg env (suc f) s w).0 ≡ true
      → Ends (drive cfg env (suc f) n (dispatch cfg env (suc f) s w).1)
      → Ends (drive cfg env (suc f) (suc n) w)
  Ends-dispatch n s w h e k =
      Ends-suc n w (rw (advance-dispatch s w h) e) (rw (advance-dispatch s w h) k)

  terminal-Ends :
      (n : ℕ) (w : World) → is_terminal w.session.state ≡ true → Ends (drive cfg env (suc f) n w)
  unfolding drive
  terminal-Ends zero w h = (refl, h)
  terminal-Ends (suc n) w h =
      let same = step_terminal w.session.state w h in
      Ends-dispatch n w.session.state w refl (ap (λ r. is_ok r.0) same)
        (rw same (terminal-Ends n w h))

  sandbox_verify-done :
      (w : World)
      → is_trading w.session.resource.namespace ≡ false
      → (is_ok (dispatch cfg env (suc f) propose_fix w).0 ≡ true)
        × (is_terminal (dispatch cfg env (suc f) propose_fix w).1.session.state ≡ true)
  unfolding dispatch sandbox_verify
  sandbox_verify-done w safe = ground arith

  propose_fix-Ends :
      (n : ℕ) (w : World)
      → w.session.state ≡ propose_fix
      → is_trading w.session.resource.namespace ≡ false
      → Ends (drive cfg env (suc f) (suc n) w)
  propose_fix-Ends n w h safe =
      let done = sandbox_verify-done w safe in
      Ends-dispatch n propose_fix w h done.0 (terminal-Ends n _ done.1)

  analyze-done :
      (w : World)
      → (is_ok (dispatch cfg env (suc f) still_sick w).0 ≡ true)
        × ((dispatch cfg env (suc f) still_sick w).1.session.state ≡ propose_fix)
        × ((dispatch cfg env (suc f) still_sick w).1.session.resource ≡ w.session.resource)
  unfolding dispatch analyze ask_pod ask_events ask_log set_state
  analyze-done w =
      let asked = read_pod w.session.resource.namespace w.session.resource.name ∷ w.calls in
      let (found, e) = ok-value (env.pod w.calls) (c.pods w.calls) in
      let container = (scan (get_or found []) unscanned).container_name in
      let logged = read_log w.session.resource.namespace w.session.resource.name container in
      ground (arith, e, c.listed (logged ∷ asked))

  still_sick-Ends :
      (n : ℕ) (w : World)
      → w.session.state ≡ still_sick
      → is_trading w.session.resource.namespace ≡ false
      → Ends (drive cfg env (suc f) (suc (suc n)) w)
  still_sick-Ends n w h safe =
      let done = analyze-done w in
      Ends-dispatch (suc n) still_sick w h done.0
        (propose_fix-Ends n _ done.1 (ap (λ r. is_trading r.namespace) done.2 ∙ safe))

  restart_issued-Ends :
      (n ts : ℕ) (w : World)
      → w.session.state ≡ restart_issued
      → w.session.restart_ts ≡ some ts
      → is_trading w.session.resource.namespace ≡ false
      → Ends (drive cfg env (suc f) (suc (suc (suc n))) w)
  restart_issued-Ends n ts w h e safe =
      let v = watch-verdict c f ts w enough e in
      let same =
        ((watch-IsQuiet cfg env w.session.resource (patches w.calls) (suc f)).at w
          (record { about = refl; sent = refl })).about in
      Ends-dispatch (suc (suc n)) restart_issued w h (unfold dispatch in v.0) (
        unfold dispatch in
        elim v.1 [
          | inl well ↦ terminal-Ends (suc (suc n)) _ (ap is_terminal well)
          | inr sick ↦ still_sick-Ends n _ sick (ap (λ r. is_trading r.namespace) same ∙ safe)
        ])

  patch_resource-ok : (p : Patch) (w : World) → is_ok (patch_resource env p w).0 ≡ true
  unfolding patch_resource
  patch_resource-ok p w = ground (arith, c.patches w.calls)

  restart-done :
      (w : World)
      → is_trading w.session.resource.namespace ≡ false
      → w.session.ladder_cycles_this_hour < 2
      → (ts : ℕ) × (is_ok (dispatch cfg env (suc f) idle w).0 ≡ true)
        × ((dispatch cfg env (suc f) idle w).1.session.state ≡ restart_issued)
        × ((dispatch cfg env (suc f) idle w).1.session.restart_ts ≡ some ts)
        × ((dispatch cfg env (suc f) idle w).1.session.resource ≡ w.session.resource)
  unfolding dispatch restart
  restart-done w safe few =
      let at = record w { calls = utcnow ∷ w.calls } in
      let now = env.utc w.calls in
      let fine = patch_resource-ok (restarted_at now) at in
      let same = patch_resource-session env (restarted_at now) at in
      (
        now,
        ground (arith, fine),
        ground (arith, fine, same),
        ground (arith, fine, same),
        ground (arith, fine, same),
      )

  -- Four advances, and so more than four, take an idle session, off the trading namespaces and with
  -- restarts left this hour, to a terminal state, if the cluster answers the reads and the patches,
  -- no listing holds a warning whose time has an offset from UTC, and the clock goes on.
  pub drive-terminal :
      (n : ℕ) (w : World)
      → w.session.state ≡ idle
      → is_trading w.session.resource.namespace ≡ false
      → w.session.ladder_cycles_this_hour < 2
      → (is_ok (drive cfg env (suc f) (4 + n) w).0 ≡ true)
        × (is_terminal (drive cfg env (suc f) (4 + n) w).1.session.state ≡ true)
  drive-terminal n w h safe few =
      let (ts, fine, issued, stamped, same) = restart-done w safe few in
      let four : 4 + n ≡ suc (suc (suc (suc n))) = omega arith in
      rw four (
        Ends-dispatch (suc (suc (suc n))) idle w h fine (
          restart_issued-Ends n ts _ issued stamped (ap (λ r. is_trading r.namespace) same ∙ safe)))
