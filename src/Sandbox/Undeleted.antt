-- ===== src/Sandbox/Undeleted.antt =====
-- No step of a sandbox run before its last deletes a virtual cluster.
use Prim.Native.String.{String}
use mcp_kubernetes_platform.Prelude.{
  ℕ, zero, suc, ◌*◌, ◌≡◌, refl, ap, Bool, true, false, ◌&&◌, Option, none, List, [], ◌∷◌, ◌++◌,
  ◌==◌, count_if, arith,
}
use mcp_kubernetes_platform.Prelude.Effects.{◌>>◌}
use mcp_kubernetes_platform.Prelude.Effects.Keeps.{
  Keeps, Keeps-bind, Keeps-pure, Keeps-raise, Keeps-if,
}
use mcp_kubernetes_platform.Sandbox.Data.{
  second, SmokeResult, Settings, Output, Call, spawn, loop_time, sleep, Outside, History, Action,
  Bytes, SmokeClass, deployment_rollout, pod_running,
}
use mcp_kubernetes_platform.Sandbox.Commands.{
  run_process, read_time, pause, touch, decoded, run_cmd, collect_events, write_sandbox_log,
}
use mcp_kubernetes_platform.Sandbox.Smoke.{
  run_rollout, look_at_pods, smoke_passed, timed_out, get_phases, phase_loop, run_phases, run_smoke,
}
use mcp_kubernetes_platform.Sandbox.Lifecycle.{
  ready_args, ready_loop, wait_vcluster_ready, report_failure, run_probe, try_manifest, set_up,
}

abbrev pub is_delete : Call → Bool
is_delete (spawn (program ∷ command ∷ rest) input) = program == "vcluster" && command == "delete"
is_delete _ = false

-- The calls since `h`, the last first; none of them deletes a virtual cluster.
pub record Extends (h s : History) : Type 0 where
  pub new : History
  pub extended : s ≡ new ++ h
  pub kept : count_if is_delete new ≡ 0

pub Extends-refl : (h : History) → Extends h h
Extends-refl h = record { new = []; extended = refl; kept = refl }

Extends-cons : (h s : History) (c : Call) → is_delete c ≡ false → Extends h s → Extends h (c ∷ s)
Extends-cons h s c e x = record {
  new = c ∷ x.new;
  extended = ap (λ t. c ∷ t) x.extended;
  kept = ground (arith, e, x.kept);
}

module _ (env : Outside) (h : History) where
  run_process-Extends :
      (args : List String) (input : Option String)
      → is_delete (spawn args input) ≡ false
      → Keeps (Extends h) (run_process env args input)
  unfolding run_process
  run_process-Extends args input e = record { at = λ s x. Extends-cons h s _ e x }

  read_time-Extends : Keeps (Extends h) (read_time env)
  unfolding read_time
  read_time-Extends = record { at = λ s x. Extends-cons h s loop_time refl x }

  pause-Extends : (n : ℕ) → Keeps (Extends h) (pause env n)
  unfolding pause
  pause-Extends n = record { at = λ s x. Extends-cons h s (sleep n) refl x }

  touch-Extends : (c : Call) → is_delete c ≡ false → Keeps (Extends h) (touch env c)
  unfolding touch
  touch-Extends c e = record { at = λ s x. Extends-cons h s c e x }

  decoded-Extends : (b : Bytes) → Keeps (Extends h) (decoded env b)
  unfolding decoded
  decoded-Extends b = record { at = λ s x. x }

  ruleset sandbox_rules = (
    Keeps-bind, Keeps-pure, Keeps-raise, Keeps-if, run_process-Extends, read_time-Extends,
    pause-Extends, touch-Extends, decoded-Extends, refl,
  )

  -- a pause, and the loop again
  pause-again-Extends :
      {A : Type 0} (n : ℕ) (again : Action A)
      → Keeps (Extends h) again
      → Keeps (Extends h) (pause env n >> again)
  pause-again-Extends n again kept = Keeps-bind _ _ (pause-Extends n) λ _. kept

  run_cmd-Extends :
      (check : Bool) (args : List String)
      → is_delete (spawn args none) ≡ false
      → Keeps (Extends h) (run_cmd env check args)
  unfolding run_cmd
  run_cmd-Extends check args e = search (sandbox_rules, e) depth 12

  collect_events-Extends : (k : String) → Keeps (Extends h) (collect_events env k)
  unfolding collect_events
  collect_events-Extends k = search sandbox_rules depth 9

  module _ (cfg : Settings) where
    write_sandbox_log-Extends :
        (i m : String) (r : SmokeResult) (base : Option String)
        → Keeps (Extends h) (write_sandbox_log env cfg i m r base)
    unfolding write_sandbox_log
    write_sandbox_log-Extends i m r base = search sandbox_rules depth 9

    run_rollout-Extends :
        (d : String) (t : ℕ) (k : String) → Keeps (Extends h) (run_rollout env d t k)
    unfolding run_rollout
    run_rollout-Extends d t k = search (sandbox_rules, collect_events-Extends) depth 12

    smoke_passed-Extends : (k : String) (out : Output) → Keeps (Extends h) (smoke_passed env k out)
    unfolding smoke_passed
    smoke_passed-Extends k out = search (sandbox_rules, collect_events-Extends) depth 9

    look_at_pods-Extends :
        (k : String) (again : Action SmokeResult)
        → Keeps (Extends h) again
        → Keeps (Extends h) (look_at_pods env k again)
    unfolding look_at_pods
    look_at_pods-Extends k again kept =
        let waits = pause-again-Extends (2 * second) again kept in
        Keeps-bind _ _ (run_process-Extends (get_phases env k) none refl) λ out.
          Keeps-bind _ _ (decoded-Extends out.stdout)
            λ text. Keeps-if _ (smoke_passed env k out) _ (smoke_passed-Extends k out) waits

    phase_loop-Extends :
        (fuel deadline : ℕ) (k : String) → Keeps (Extends h) (phase_loop env fuel deadline k)
    unfolding phase_loop timed_out
    phase_loop-Extends zero deadline k = search sandbox_rules
    phase_loop-Extends (suc fuel) deadline k =
        let again = look_at_pods-Extends k _ (phase_loop-Extends fuel deadline k) in
        Keeps-bind _ _ read_time-Extends λ now.
          Keeps-if _ _ (timed_out env k) again (search (sandbox_rules, collect_events-Extends))

    run_smoke-Extends :
        (fuel : ℕ) (c : SmokeClass) (k : String) → Keeps (Extends h) (run_smoke env fuel c k)
    unfolding run_smoke run_phases
    run_smoke-Extends fuel deployment_rollout k = run_rollout-Extends "sandbox-probe" 25 k
    run_smoke-Extends fuel pod_running k = search (sandbox_rules, phase_loop-Extends)

    ready_loop-Extends :
        (fuel deadline : ℕ) (i ns : String)
        → Keeps (Extends h) (ready_loop env cfg fuel deadline i ns)
    unfolding ready_loop
    ready_loop-Extends zero deadline i ns = search sandbox_rules
    ready_loop-Extends (suc fuel) deadline i ns =
        let again = ready_loop-Extends fuel deadline i ns in
        Keeps-bind _ _ read_time-Extends λ now.
          Keeps-if _ _ _
            (Keeps-bind _ _ (run_cmd-Extends false (ready_args i ns) refl) λ answer.
              Keeps-if _ _ (pause env (2 * second) >> ready_loop env cfg fuel deadline i ns)
                (Keeps-pure true) (pause-again-Extends (2 * second) _ again))
            (Keeps-pure false)

    wait_vcluster_ready-Extends :
        (fuel : ℕ) (i ns : String) (t : ℕ)
        → Keeps (Extends h) (wait_vcluster_ready env cfg fuel i ns t)
    unfolding wait_vcluster_ready
    wait_vcluster_ready-Extends fuel i ns t = search (sandbox_rules, ready_loop-Extends)

    module _ (fuel : ℕ) (i m c : String) where
      report_failure-Extends : (out : Output) → Keeps (Extends h) (report_failure env cfg i m out)
      unfolding report_failure
      report_failure-Extends out =
          search (sandbox_rules, collect_events-Extends, write_sandbox_log-Extends) depth 14

      pub run_probe-Extends : Keeps (Extends h) (run_probe env cfg fuel i m c)
      unfolding run_probe
      run_probe-Extends =
          search (sandbox_rules, run_smoke-Extends, write_sandbox_log-Extends) depth 14

      try_manifest-Extends : Keeps (Extends h) (try_manifest env cfg fuel i m c)
      unfolding try_manifest
      try_manifest-Extends =
          search (sandbox_rules, run_cmd-Extends, run_probe-Extends, report_failure-Extends) depth
            14

      pub set_up-Extends : Keeps (Extends h) (set_up env cfg fuel i m c)
      unfolding set_up
      set_up-Extends =
          search (sandbox_rules, run_cmd-Extends, wait_vcluster_ready-Extends, try_manifest-Extends)
            depth 14
