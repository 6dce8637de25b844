-- ===== src/Sandbox/Applied.antt =====
-- What a passed sandbox run says of the manifest.
use Prim.Native.String.{String}
use mcp_kubernetes_platform.Prelude.{
  ℕ, ◌≡◌, refl, ap, ◌∙◌, sym, true, false, none, some, [], ◌∷◌, ◌++◌, inl, inr, arith, append_assoc,
}
use mcp_kubernetes_platform.Prelude.Effects.{ok, Result-cases}
use mcp_kubernetes_platform.Sandbox.Data.{
  SmokeResult, Settings, Output, spawn, unlink, acquire, release, Outside, History, is_zero,
}
use mcp_kubernetes_platform.Sandbox.Commands.{
  run_process, decoded, run_cmd, collect_events, write_sandbox_log,
}
use mcp_kubernetes_platform.Sandbox.Smoke.{run_smoke, smoke_class}
use mcp_kubernetes_platform.Sandbox.Lifecycle.{
  create_args, connect_args, apply_args, delete_args, kubeconfig_of, sandbox_name, probe_manifest,
  finally, wait_vcluster_ready, report_failure, run_probe, try_manifest, set_up, tear_down,
  sandbox_lifecycle, acquire_slot, release_slot, run_sandbox, unavailable,
}
use mcp_kubernetes_platform.Sandbox.Undeleted.{Extends-refl, run_probe-Extends}
use mcp_kubernetes_platform.Sandbox.Ensures.{
  Ensures, Ensures-bind, Ensures-pure, Ensures-if, from_outside-ok, finally-returns,
}
use mcp_kubernetes_platform.Sandbox.Cleanup.{finally-calls, tear_down-calls}

-- The manifest was applied in the cluster, with the return code 0, and the smoke test of the class,
-- run after it and the probe, gave the result.
pub record Applied (env : Outside) (fuel : ℕ) (i m c : String) (r : SmokeResult) (h : History)
    : Type 0 where
  pub earlier : History
  pub out : Output
  pub answered : env.finished earlier (apply_args (kubeconfig_of i)) (some m) ≡ ok out
  pub accepted : is_zero out.returncode ≡ true
  pub later : History
  pub calls : h ≡ later ++ spawn (apply_args (kubeconfig_of i)) (some m) ∷ earlier
  pub tested :
      (run_smoke env fuel (smoke_class c) (kubeconfig_of i) (
        spawn (apply_args (kubeconfig_of i)) (some probe_manifest)
        ∷ spawn (apply_args (kubeconfig_of i)) (some m)
        ∷ earlier)).0
      ≡ ok r

module _ (env : Outside) (cfg : Settings) (fuel : ℕ) (i m c : String) where
  run_probe-tested :
      (h : History)
      → Ensures h
          (λ r t.
            (run_smoke env fuel
              (smoke_class c)
              (kubeconfig_of i)
              (spawn (apply_args (kubeconfig_of i)) (some probe_manifest) ∷ h)).0
            ≡ ok r)
          (run_probe env cfg fuel i m c)
  unfolding run_probe run_process
  run_probe-tested h =
      let k = kubeconfig_of i in
      Ensures-bind (run_process env (apply_args k) (some probe_manifest)) _ λ _ _.
        Ensures-bind (run_smoke env fuel (smoke_class c) k) _
          λ r e. Ensures-bind (write_sandbox_log env cfg i m r none) _ λ _ _. Ensures-pure r e

  report_failure-passed :
      (out : Output) (h : History)
      → Ensures h (λ r t. r.passed ≡ false) (report_failure env cfg i m out)
  unfolding report_failure
  report_failure-passed out h = Ensures-bind (collect_events env (kubeconfig_of i)) _ λ events _.
      Ensures-bind (decoded env out.stdout) _
        λ text _. Ensures-bind (write_sandbox_log env cfg i m _ none) _ λ _ _. Ensures-pure _ refl

  run_probe-Applied :
      (h : History) (out : Output)
      → env.finished h (apply_args (kubeconfig_of i)) (some m) ≡ ok out
      → is_zero out.returncode ≡ true
      → Ensures
          (spawn (apply_args (kubeconfig_of i)) (some m) ∷ h)
          (λ r t. r.passed ≡ true → Applied env fuel i m c r t)
          (run_probe env cfg fuel i m c)
  run_probe-Applied h out e accepted = record {
    at = λ r returned _.
        let applied = spawn (apply_args (kubeconfig_of i)) (some m) ∷ h in
        let x = (run_probe-Extends env applied cfg fuel i m c).at applied (Extends-refl applied) in
        record {
          earlier = h;
          out = out;
          answered = e;
          accepted = accepted;
          later = x.new;
          calls = x.extended;
          tested = (run_probe-tested applied).at r returned;
        };
  }

  try_manifest-Applied :
      (h : History)
      → Ensures h
          (λ r t. r.passed ≡ true → Applied env fuel i m c r t)
          (try_manifest env cfg fuel i m c)
  unfolding try_manifest run_process
  try_manifest-Applied h =
      let k = kubeconfig_of i in
      Ensures-bind (run_cmd env false (connect_args i)) _ λ _ _.
        Ensures-bind (run_process env (apply_args k) (some m)) _ λ out e.
          Ensures-if (is_zero out.returncode) _ _
            (run_probe-Applied _ out (from_outside-ok _ out e))
            λ _. record {
              at = λ r returned passed.
                  absurd (cc ((report_failure-passed out _).at r returned, passed));
            }

  set_up-Applied :
      (h : History)
      → Ensures h (λ r t. r.passed ≡ true → Applied env fuel i m c r t) (set_up env cfg fuel i m c)
  unfolding set_up unavailable
  set_up-Applied h = Ensures-bind (run_cmd env false (create_args cfg i)) _ λ _ _.
      Ensures-bind (wait_vcluster_ready env cfg fuel i (sandbox_name i) cfg.ready_timeout) _
        λ ready _.
          Ensures-if ready (try_manifest env cfg fuel i m c) _ (λ _. try_manifest-Applied _)
            λ _. Ensures-pure (unavailable env cfg) λ e. absurd (cc e)

module _ (env : Outside) (cfg : Settings) (fuel : ℕ) (i m c : String) where
  Applied-more :
      (r : SmokeResult) (h h' new : History)
      → h' ≡ new ++ h
      → Applied env fuel i m c r h
      → Applied env fuel i m c r h'
  Applied-more r h h' new e p =
      let applied : History = spawn (apply_args (kubeconfig_of i)) (some m) ∷ p.earlier in
      record {
        earlier = p.earlier;
        out = p.out;
        answered = p.answered;
        accepted = p.accepted;
        later = new ++ p.later;
        calls = e ∙ ap (λ (t : History). new ++ t) p.calls ∙ sym (append_assoc new p.later applied);
        tested = p.tested;
      }

  lifecycle-Applied :
      (s : History) (r : SmokeResult)
      → (finally (sandbox_lifecycle env cfg fuel i m c) (release_slot env cfg) s).0 ≡ ok r
      → r.passed ≡ true
      → Applied env fuel i m c r
          (finally (sandbox_lifecycle env cfg fuel i m c) (release_slot env cfg) s).1
  unfolding sandbox_lifecycle release_slot
  lifecycle-Applied s r e passed =
      let up = set_up env cfg fuel i m c in
      let down = tear_down env cfg i in
      let inner = finally-returns (finally up down) (release_slot env cfg) s r e in
      let tried =
        (set_up-Applied env cfg fuel i m c s).at r (finally-returns up down s r inner) passed in
      let calls =
        finally-calls (finally up down) (release_slot env cfg) s
        ∙ ap (λ t. release ∷ t) (finally-calls up down s) in
      elim (tear_down-calls env cfg i (up s).1) [
        | inl k ↦
            Applied-more r (up s).1 _
              (release ∷ unlink (kubeconfig_of i) ∷ spawn (delete_args i) none ∷ [])
              (calls ∙ ap (λ t. release ∷ t) k) tried
        | inr k ↦
            Applied-more r (up s).1 _ (release ∷ spawn (delete_args i) none ∷ [])
              (calls ∙ ap (λ t. release ∷ t) k.0) tried
      ]

  -- A run that returns a passed result has applied the manifest in its virtual cluster with the
  -- return code 0, and the result is that of the smoke test for the fix class, run next to the
  -- probe after that.
  pub run_sandbox-Applied :
      (h : History) (r : SmokeResult)
      → (run_sandbox env cfg fuel i m c h).0 ≡ ok r
      → r.passed ≡ true
      → Applied env fuel i m c r (run_sandbox env cfg fuel i m c h).1
  unfolding run_sandbox acquire_slot
  run_sandbox-Applied h r e passed = elim (Result-cases (env.acquired h)) [
    | inl (x, f) ↦ rw f (lifecycle-Applied (acquire ∷ h) r (rw f at e) passed)
    | inr (x, f) ↦ absurd (ground (arith, e, f))
  ]
