-- ===== src/Ladder/Quiet.antt =====
-- A ladder on a trading namespace, or in a dry run, changes nothing in the cluster.
use mcp_kubernetes_platform.Prelude.{
  ℕ, zero, suc, ◌≡◌, ◌⊎◌, refl, Bool, true, false, Option, none, some, String, arith, count_if,
}
use mcp_kubernetes_platform.Prelude.Effects.Keeps.{
  Keeps, Keeps-bind, Keeps-pure, Keeps-raise, Keeps-gets, Keeps-lift, Keeps-if,
}
use mcp_kubernetes_platform.Ladder.Types.{
  LadderState, idle, restart_issued, still_sick, propose_fix, ResourceRef, assertion_error, Call,
  patch_deployment, patch_stateful_set, patch_daemon_set, Patch, History, Outside, Settings, World,
}
use mcp_kubernetes_platform.Ladder.Eligibility.{is_trading}
use mcp_kubernetes_platform.Ladder.Methods.{
  set_state, ask_pod, ask_events, ask_log, restart, sandbox_verify, apply, analyze,
}
use mcp_kubernetes_platform.Ladder.Watch.{
  read_clock, pause, poll, judge, watch_loop, watchdog_from, watchdog, watch,
}
use mcp_kubernetes_platform.Ladder.Driver.{dispatch, advance, drive}

abbrev pub is_patch : Call → Bool
is_patch (patch_deployment _ _ _) = true
is_patch (patch_stateful_set _ _ _) = true
is_patch (patch_daemon_set _ _ _) = true
is_patch _ = false

-- how many patches the cluster was sent
abbrev pub patches : History → ℕ
patches h = count_if is_patch h

-- The session is still about this resource, and so many patches were sent.
pub record IsQuiet (r : ResourceRef) (k : ℕ) (w : World) : Type 0 where
  pub about : w.session.resource ≡ r
  pub sent : patches w.calls ≡ k

module _ (cfg : Settings) (env : Outside) (r : ResourceRef) (k : ℕ) where
  set_state-IsQuiet : (s : LadderState) → Keeps (IsQuiet r k) (set_state env s)
  unfolding set_state
  set_state-IsQuiet s = record { at = λ w h. ground arith }

  read_clock-IsQuiet : Keeps (IsQuiet r k) (read_clock env)
  unfolding read_clock
  read_clock-IsQuiet = record { at = λ w h. ground arith }

  pause-IsQuiet : (n : ℕ) → Keeps (IsQuiet r k) (pause env n)
  unfolding pause
  pause-IsQuiet n = record { at = λ w h. ground arith }

  ask_pod-IsQuiet : Keeps (IsQuiet r k) (ask_pod env)
  unfolding ask_pod
  ask_pod-IsQuiet = record { at = λ w h. ground arith }

  ask_events-IsQuiet : Keeps (IsQuiet r k) (ask_events env)
  unfolding ask_events
  ask_events-IsQuiet = record { at = λ w h. ground arith }

  ask_log-IsQuiet : (c : String) → Keeps (IsQuiet r k) (ask_log env c)
  unfolding ask_log
  ask_log-IsQuiet c = record { at = λ w h. ground arith }

  ruleset quiet_rules = (
    Keeps-bind, Keeps-pure, Keeps-raise, Keeps-gets, Keeps-lift, Keeps-if, set_state-IsQuiet,
    read_clock-IsQuiet, pause-IsQuiet, ask_pod-IsQuiet, ask_events-IsQuiet, ask_log-IsQuiet,
  )

  poll-IsQuiet : (ts : ℕ) → Keeps (IsQuiet r k) (poll env ts)
  unfolding poll
  poll-IsQuiet ts = search quiet_rules depth 9

  pub analyze-IsQuiet : Keeps (IsQuiet r k) (analyze env)
  unfolding analyze
  analyze-IsQuiet = search quiet_rules depth 12

  sandbox_verify-IsQuiet : Keeps (IsQuiet r k) (sandbox_verify env cfg)
  unfolding sandbox_verify
  sandbox_verify-IsQuiet = record { at = λ w h. ground arith }

  watch_loop-IsQuiet :
      (fuel ts i deadline n : ℕ) → Keeps (IsQuiet r k) (watch_loop env fuel ts i deadline n)
  unfolding watch_loop judge
  watch_loop-IsQuiet zero ts i deadline n = search quiet_rules
  watch_loop-IsQuiet (suc fuel) ts i deadline n =
      let again = watch_loop-IsQuiet fuel ts i deadline in
      search (quiet_rules, poll-IsQuiet, again) depth 9

  watchdog-IsQuiet : (fuel i : ℕ) → Keeps (IsQuiet r k) (watchdog env fuel i)
  unfolding watchdog watchdog_from
  watchdog-IsQuiet fuel i = Keeps-bind _ _ (Keeps-gets _) started
    where
      started : (o : Option ℕ) → Keeps (IsQuiet r k) (watchdog_from env fuel i o)
      started none = Keeps-raise assertion_error
      started (some ts) = search (quiet_rules, watch_loop-IsQuiet)

  pub watch-IsQuiet : (fuel : ℕ) → Keeps (IsQuiet r k) (watch env fuel)
  unfolding watch
  watch-IsQuiet fuel = search (quiet_rules, watchdog-IsQuiet)

  module _ (guarded : (cfg.dry_run ≡ true) ⊎ (is_trading r.namespace ≡ true)) where
    restart-IsQuiet : Keeps (IsQuiet r k) (restart env cfg)
    unfolding restart
    restart-IsQuiet = record { at = λ w h. ground arith }

    apply-IsQuiet : (p : Patch) → Keeps (IsQuiet r k) (apply env cfg p)
    unfolding apply
    apply-IsQuiet p = record { at = λ w h. ground arith }

    dispatch-IsQuiet : (fuel : ℕ) (s : LadderState) → Keeps (IsQuiet r k) (dispatch cfg env fuel s)
    unfolding dispatch
    dispatch-IsQuiet fuel idle = restart-IsQuiet
    dispatch-IsQuiet fuel restart_issued = watch-IsQuiet fuel
    dispatch-IsQuiet fuel still_sick = search (quiet_rules, analyze-IsQuiet)
    dispatch-IsQuiet fuel propose_fix = sandbox_verify-IsQuiet
    dispatch-IsQuiet fuel _ = Keeps-pure tt

    advance-IsQuiet : (fuel : ℕ) → Keeps (IsQuiet r k) (advance cfg env fuel)
    unfolding advance
    advance-IsQuiet fuel = record { at = λ w h. (dispatch-IsQuiet fuel w.session.state).at w h }

    drive-IsQuiet : (fuel n : ℕ) → Keeps (IsQuiet r k) (drive cfg env fuel n)
    unfolding drive
    drive-IsQuiet fuel zero = Keeps-pure tt
    drive-IsQuiet fuel (suc n) = Keeps-bind _ _ (advance-IsQuiet fuel) (λ _. drive-IsQuiet fuel n)

-- In a dry run, and on a trading namespace in any run, no number of advances sends the cluster a
-- patch, whatever the outside answers and whether or not the ladder raises; nor does `apply`.
pub drive-patches :
    (cfg : Settings) (env : Outside) (fuel n : ℕ) (p : Patch) (w : World)
    → (cfg.dry_run ≡ true) ⊎ (is_trading w.session.resource.namespace ≡ true)
    → (patches (drive cfg env fuel n w).1.calls ≡ patches w.calls)
      × (patches (apply env cfg p w).1.calls ≡ patches w.calls)
drive-patches cfg env fuel n p w guarded = (
  ((drive-IsQuiet cfg env w.session.resource (patches w.calls) guarded fuel n).at w start).sent,
  ((apply-IsQuiet cfg env w.session.resource (patches w.calls) guarded p).at w start).sent,
)
  where
    start : IsQuiet w.session.resource (patches w.calls) w
    start = record { about = refl; sent = refl }
