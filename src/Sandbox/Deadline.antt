-- ===== src/Sandbox/Deadline.antt =====
-- That the loops of a sandbox run end.
use Prim.Native.String.{String}
use mcp_kubernetes_platform.Prelude.{
  ◌≡◌, refl, ℕ, zero, suc, ◌+◌, ◌*◌, ◌≤◌, true, false, none, ◌∷◌, arith, refl,
}
use mcp_kubernetes_platform.Prelude.Effects.{Result, ok, raised, continue, pure, ◌>>=◌, ◌>>◌}
use mcp_kubernetes_platform.Sandbox.Data.{
  second, SmokeResult, Settings, loop_time, sleep, Outside, History, Action, SmokeClass,
  deployment_rollout, pod_running,
}
use mcp_kubernetes_platform.Sandbox.Commands.{
  from_outside, run_process, read_time, pause, decoded, run_cmd,
}
use mcp_kubernetes_platform.Sandbox.Smoke.{
  look_at_pods, get_phases, smoke_passed, timed_out, phase_loop, run_phases, run_smoke,
}
use mcp_kubernetes_platform.Sandbox.Lifecycle.{ready_args, ready_loop}
use mcp_kubernetes_platform.Sandbox.Prompt.{
  IsPrompt-bind, IsPrompt-if, IsPrompt-pure, IsSteady, IsPrompt, run_process-IsPrompt,
  decoded-IsPrompt, run_cmd-IsPrompt, run_rollout-IsPrompt, smoke_passed-IsPrompt,
  timed_out-IsPrompt, stopped-IsPrompt,
}

module _ {env : Outside} (c : IsSteady env) where
  -- what follows a sleep, if it was not cancelled
  slept-IsPrompt :
      {A : Type 0} (s t : History) (r : Result String Unit) (again : Action A)
      → env.time s ≤ env.time t
      → (r ≡ ok tt → IsPrompt env t again)
      → IsPrompt env s (λ _. continue (from_outside r) (λ _. again) t)
  slept-IsPrompt s t (ok a) again le q =
      let p = q refl in record { fuelled = p.fuelled; later = omega (arith, p.later, le) }
  slept-IsPrompt s t (raised x) again le q = record { fuelled = refl; later = le }

  -- a pause of two seconds, and the loop again, if that is prompt from two seconds later
  pub pause-again-IsPrompt :
      {A : Type 0} (h s : History) (again : Action A)
      → env.time h ≤ env.time s
      → ((t : History) → env.time h + 2 * second ≤ env.time t → IsPrompt env t again)
      → IsPrompt env s (pause env (2 * second) >> again)
  unfolding pause
  pause-again-IsPrompt h s again le q =
      let n = 2 * second in
      let p =
        slept-IsPrompt s (sleep n ∷ s) (env.slept s n) again (c.onward s (sleep n))
          (λ e. q (sleep n ∷ s) (omega (arith, c.rested s n e, le))) in
      record { fuelled = p.fuelled; later = p.later }

  pub look_at_pods-IsPrompt :
      (h s : History) (k : String) (again : Action SmokeResult)
      → env.time h ≤ env.time s
      → ((t : History) → env.time h + 2 * second ≤ env.time t → IsPrompt env t again)
      → IsPrompt env s (look_at_pods env k again)
  unfolding look_at_pods
  look_at_pods-IsPrompt h s k again le q =
      let p = run_process-IsPrompt c s (get_phases env k) none in
      let s1 = (run_process env (get_phases env k) none s).1 in
      IsPrompt-bind s _ _ p λ out.
        let d = decoded-IsPrompt c s1 out.stdout in
        let s2 = (decoded env out.stdout s1).1 in
        IsPrompt-bind s1 _ _ d λ text.
          IsPrompt-if s2 _ (smoke_passed env k out) _ (smoke_passed-IsPrompt c s2 k out)
            (pause-again-IsPrompt h s2 again (omega (arith, le, p.later, d.later)) q)

  -- The time that is read is that of the call.
  pub read_time-then-IsPrompt :
      {A : Type 0} (h : History) (f : ℕ → Action A)
      → IsPrompt env (loop_time ∷ h) (f (env.time h))
      → IsPrompt env h (read_time env >>= f)
  unfolding read_time
  read_time-then-IsPrompt h f p = record {
    fuelled = p.fuelled;
    later = omega (arith, c.onward h loop_time, p.later);
  }

  -- A loop that is late stops; one that is not goes on, and needs a round less then.
  pub phase_loop-IsPrompt :
      (f deadline : ℕ) (k : String) (h : History)
      → deadline ≤ env.time h + f * (2 * second)
      → IsPrompt env h (phase_loop env (suc f) deadline k)
  unfolding phase_loop
  phase_loop-IsPrompt zero deadline k h le = read_time-then-IsPrompt h _ (
      stopped-IsPrompt (loop_time ∷ h) (env.time h) deadline _ (timed_out env k) (omega (arith, le))
        (timed_out-IsPrompt c _ k))
  phase_loop-IsPrompt (suc g) deadline k h le = read_time-then-IsPrompt h _ (
      IsPrompt-if (loop_time ∷ h) _ _ (timed_out env k)
        (look_at_pods-IsPrompt h (loop_time ∷ h) k (phase_loop env (suc g) deadline k)
          (c.onward h loop_time)
          λ t later. phase_loop-IsPrompt g deadline k t (omega (arith, le, later)))
        (timed_out-IsPrompt c _ k))

  pub run_smoke-IsPrompt :
      (f : ℕ) (s : SmokeClass) (k : String) (h : History)
      → 20 ≤ 2 * f
      → IsPrompt env h (run_smoke env (suc f) s k)
  unfolding run_smoke run_phases
  run_smoke-IsPrompt f deployment_rollout k h le = run_rollout-IsPrompt c h "sandbox-probe" 25 k
  run_smoke-IsPrompt f pod_running k h le = read_time-then-IsPrompt h _ (
      phase_loop-IsPrompt f (env.time h + 20 * second) k (loop_time ∷ h)
        (omega (arith, le, c.onward h loop_time)))

  module _ (cfg : Settings) where
    pub ready_loop-IsPrompt :
        (f deadline : ℕ) (i ns : String) (h : History)
        → deadline ≤ env.time h + f * (2 * second)
        → IsPrompt env h (ready_loop env cfg (suc f) deadline i ns)
    unfolding ready_loop
    ready_loop-IsPrompt zero deadline i ns h le = read_time-then-IsPrompt h _ (
        stopped-IsPrompt (loop_time ∷ h) (env.time h) deadline _ (pure false) (omega (arith, le))
          (IsPrompt-pure _ false))
    ready_loop-IsPrompt (suc g) deadline i ns h le = read_time-then-IsPrompt h _ (
        let s : History = loop_time ∷ h in
        let ask = run_cmd env false (ready_args i ns) in
        let p = run_cmd-IsPrompt c s false (ready_args i ns) in
        IsPrompt-if s _ _ (pure false)
          (IsPrompt-bind s ask _ p λ answer.
            IsPrompt-if (ask s).1 _ (pure true) _ (IsPrompt-pure _ true) (
              pause-again-IsPrompt h (ask s).1 (ready_loop env cfg (suc g) deadline i ns)
                (omega (arith, p.later, c.onward h loop_time))
                λ t later. ready_loop-IsPrompt g deadline i ns t (omega (arith, le, later))))
          (IsPrompt-pure _ false))
