-- ===== src/Sandbox/Ending.antt =====
-- That a sandbox run comes to an end.
use Prim.Native.String.{String}
use mcp_kubernetes_platform.Prelude.{ℕ, suc, ◌+◌, ◌*◌, ◌≤◌, ◌≡◌, refl, false, ◌∷◌, inl, inr, arith}
use mcp_kubernetes_platform.Prelude.Effects.{raised, Result-cases}
use mcp_kubernetes_platform.Sandbox.Data.{
  second, Settings, Output, loop_time, acquire, Outside, History, SandboxError, failed, out_of_fuel,
  Action,
}
use mcp_kubernetes_platform.Sandbox.Lifecycle.{
  finally, wait_vcluster_ready, report_failure, run_probe, try_manifest, set_up, tear_down,
  sandbox_lifecycle, acquire_slot, release_slot, run_sandbox,
}
use mcp_kubernetes_platform.Sandbox.Prompt.{
  ran_out, IsSteady, IsPrompt, prompt_rules, run_cmd-IsPrompt, collect_events-IsPrompt,
  write_sandbox_log-IsPrompt,
}
use mcp_kubernetes_platform.Sandbox.Deadline.{
  read_time-then-IsPrompt, ready_loop-IsPrompt, run_smoke-IsPrompt,
}

module _ {env : Outside} (c : IsSteady env) (cfg : Settings) (f : ℕ) (i m k : String) where
  report_failure-IsPrompt :
      (h : History) (out : Output) → IsPrompt env h (report_failure env cfg i m out)
  unfolding report_failure
  report_failure-IsPrompt h out =
      search (prompt_rules, collect_events-IsPrompt, write_sandbox_log-IsPrompt) depth 14

  wait_vcluster_ready-IsPrompt :
      (h : History) (ns : String) (t : ℕ)
      → t ≤ 2 * f
      → IsPrompt env h (wait_vcluster_ready env cfg (suc f) i ns t)
  unfolding wait_vcluster_ready
  wait_vcluster_ready-IsPrompt h ns t le = read_time-then-IsPrompt c h _ (
      ready_loop-IsPrompt c cfg f (env.time h + t * second) i ns (loop_time ∷ h)
        (omega (arith, le, c.onward h loop_time)))

  tear_down-IsPrompt : (h : History) → IsPrompt env h (tear_down env cfg i)
  unfolding tear_down
  tear_down-IsPrompt h = search (prompt_rules, run_cmd-IsPrompt) depth 12

  module _ (enough : 20 ≤ 2 * f) where
    run_probe-IsPrompt : (h : History) → IsPrompt env h (run_probe env cfg (suc f) i m k)
    unfolding run_probe
    run_probe-IsPrompt h =
        search (prompt_rules, run_smoke-IsPrompt, write_sandbox_log-IsPrompt) depth 14

    try_manifest-IsPrompt : (h : History) → IsPrompt env h (try_manifest env cfg (suc f) i m k)
    unfolding try_manifest
    try_manifest-IsPrompt h =
        search (prompt_rules, run_cmd-IsPrompt, run_probe-IsPrompt, report_failure-IsPrompt) depth
          14

    set_up-IsPrompt :
        (h : History) → cfg.ready_timeout ≤ 2 * f → IsPrompt env h (set_up env cfg (suc f) i m k)
    unfolding set_up
    set_up-IsPrompt h le =
        search (prompt_rules, run_cmd-IsPrompt, wait_vcluster_ready-IsPrompt, try_manifest-IsPrompt)
          depth 14

ran_out-raised :
    (A B : Type 0) (x : SandboxError)
    → ran_out {A = A} (raised x) ≡ false
    → ran_out {A = B} (raised x) ≡ false
ran_out-raised A B (failed e) q = refl
ran_out-raised A B out_of_fuel q = q

finally-ran_out :
    {A : Type 0} (n : Action A) (clause : Action Unit) (h : History)
    → ran_out (n h).0 ≡ false
    → ran_out (clause (n h).1).0 ≡ false
    → ran_out (finally n clause h).0 ≡ false
unfolding finally
finally-ran_out {A} n clause h p q = elim (Result-cases (clause (n h).1).0) [
  | inl (x, e) ↦ rw e p
  | inr (x, e) ↦ rw e (ran_out-raised Unit A x (rw e at q))
]

module _ (env : Outside) (cfg : Settings) (f : ℕ) (i m k : String) where
  -- On a clock that goes on, with a round for each two seconds of both time-outs and one more, a run
  -- returns a result or raises what the outside raised: no loop of it runs on.
  pub run_sandbox-ran_out :
      (h : History)
      → IsSteady env
      → 20 ≤ 2 * f
      → cfg.ready_timeout ≤ 2 * f
      → ran_out (run_sandbox env cfg (suc f) i m k h).0 ≡ false
  unfolding run_sandbox acquire_slot sandbox_lifecycle release_slot
  run_sandbox-ran_out h c enough le =
      let s : History = acquire ∷ h in
      let up = set_up env cfg (suc f) i m k in
      let down = tear_down env cfg i in
      let first = (set_up-IsPrompt c cfg f i m k enough s le).fuelled in
      let second = (tear_down-IsPrompt c cfg f i m k (up s).1).fuelled in
      let inside = finally-ran_out up down s first second in
      elim (Result-cases (env.acquired h)) [
        | inl (x, e) ↦ rw e (finally-ran_out (finally up down) (release_slot env cfg) s inside refl)
        | inr (x, e) ↦ rw e refl
      ]
