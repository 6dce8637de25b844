-- ===== src/Sandbox/Cleanup.antt =====
-- Whatever happens in a sandbox run, the virtual cluster is deleted after everything else.
use Prim.Native.String.{String}
use mcp_kubernetes_platform.Prelude.{
  ℕ, ◌≡◌, refl, ap, ◌∙◌, Bool, true, false, none, ◌∷◌, ◌++◌, ◌⊎◌, inl, inr, count_if, arith,
}
use mcp_kubernetes_platform.Prelude.Effects.{Result, ok, raised}
use mcp_kubernetes_platform.Sandbox.Data.{
  SmokeResult, Settings, spawn, unlink, acquire, release, Outside, History, SandboxError, Action,
}
use mcp_kubernetes_platform.Sandbox.Commands.{run_process, touch, decoded, run_cmd}
use mcp_kubernetes_platform.Sandbox.Lifecycle.{
  delete_args, kubeconfig_of, finally, set_up, tear_down, sandbox_lifecycle, acquire_slot,
  release_slot, run_sandbox,
}
use mcp_kubernetes_platform.Sandbox.Undeleted.{is_delete, Extends-refl, set_up-Extends}

abbrev pub is_ok : {A : Type 0} → Result SandboxError A → Bool
is_ok (ok a) = true
is_ok (raised e) = false

-- What a `finally` clause leaves: its own calls last, and a raise where it raised.
pub finally-calls :
    {A : Type 0} (m : Action A) (clause : Action Unit) (h : History)
    → (finally m clause h).1 ≡ (clause (m h).1).1
unfolding finally
finally-calls m clause h = ground arith

-- A clause that returns leaves the result alone.
finally-ok :
    {A : Type 0} (m : Action A) (clause : Action Unit) (h : History)
    → (clause (m h).1).0 ≡ ok tt
    → (finally m clause h).0 ≡ (m h).0
unfolding finally
finally-ok m clause h e = ground (arith, e)

finally-raised :
    {A : Type 0} (m : Action A) (clause : Action Unit) (h : History)
    → is_ok (clause (m h).1).0 ≡ false
    → is_ok (finally m clause h).0 ≡ false
unfolding finally
finally-raised m clause h e = ground arith

-- The deletion is asked for; the file is removed unless the command itself raised.
pub tear_down-calls :
    (env : Outside) (cfg : Settings) (i : String) (h : History)
    → ((tear_down env cfg i h).1 ≡ unlink (kubeconfig_of i) ∷ spawn (delete_args i) none ∷ h)
      ⊎ (((tear_down env cfg i h).1 ≡ spawn (delete_args i) none ∷ h)
          × (is_ok (tear_down env cfg i h).0 ≡ false))
unfolding tear_down run_cmd run_process touch decoded
tear_down-calls env cfg i h = ground arith

-- The calls of a run that has its slot end with the command that deletes its virtual cluster, the only
-- such command, the removal of its file, and the release of the slot; where the second is missing, it
-- raises.
pub record IsCleaned (i : String) (h : History) (r : Result SandboxError SmokeResult × History)
    : Type 0 where
  pub before : History
  pub undeleted : count_if is_delete before ≡ 0
  pub ending :
      (r.1
        ≡ release ∷ unlink (kubeconfig_of i) ∷ spawn (delete_args i) none ∷ before ++ acquire ∷ h)
      ⊎ ((r.1 ≡ release ∷ spawn (delete_args i) none ∷ before ++ acquire ∷ h) × (is_ok r.0 ≡ false))

module _ (env : Outside) (cfg : Settings) (fuel : ℕ) (i m c : String) where
  sandbox_lifecycle-IsCleaned :
      (h : History)
      → IsCleaned i h
          (finally (sandbox_lifecycle env cfg fuel i m c) (release_slot env cfg) (acquire ∷ h))
  unfolding sandbox_lifecycle release_slot
  sandbox_lifecycle-IsCleaned h =
      let s : History = acquire ∷ h in
      let up = set_up env cfg fuel i m c in
      let down = tear_down env cfg i in
      let x = (set_up-Extends env s cfg fuel i m c).at s (Extends-refl s) in
      let released = finally-calls (finally up down) (release_slot env cfg) s in
      let inside = finally-calls up down s in
      record {
        before = x.new;
        undeleted = x.kept;
        ending = elim (tear_down-calls env cfg i (up s).1) [
          | inl e ↦ inl (
              released
              ∙ ap (λ t. release ∷ t)
                  (inside
                    ∙ e
                    ∙ ap (λ t. unlink (kubeconfig_of i) ∷ spawn (delete_args i) none ∷ t)
                        x.extended))
          | inr e ↦ inr (
            released
                ∙ ap (λ t. release ∷ t)
                    (inside ∙ e.0 ∙ ap (λ t. spawn (delete_args i) none ∷ t) x.extended),
            ap is_ok (finally-ok (finally up down) (release_slot env cfg) s refl)
                ∙ finally-raised up down s e.1,
          )
        ];
      }

  -- Whatever the commands answer, and whichever command, sleep, decoding or access to a file raises or
  -- is cancelled after the run has its slot, the command that deletes the virtual cluster is given
  -- exactly once, after all the others, and the slot is released last; the file is removed between
  -- them, unless the run raises.
  pub run_sandbox-IsCleaned :
      (h : History) → env.acquired h ≡ ok tt → IsCleaned i h (run_sandbox env cfg fuel i m c h)
  unfolding run_sandbox acquire_slot
  run_sandbox-IsCleaned h e = rw e (sandbox_lifecycle-IsCleaned h)
