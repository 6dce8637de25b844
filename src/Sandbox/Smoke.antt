-- ===== src/Sandbox/Smoke.antt =====
-- The two smoke tests and their registry. A loop is on fuel.
use Prim.Native.String.{String}
use mcp_kubernetes_platform.Prelude.{
  ℕ, zero, suc, ◌+◌, ◌*◌, Bool, true, false, ◌&&◌, none, List, [], ◌∷◌, ◌<>◌, all, codes, is_break,
  eqb, ltb, lstrip, rstrip, same_codes, show, get_or, if◌then◌else◌,
}
use mcp_kubernetes_platform.Prelude.Effects.{pure, raise, ◌>>=◌, ◌>>◌}
use mcp_kubernetes_platform.Prelude.Assoc.{lookup}
use mcp_kubernetes_platform.Sandbox.Data.{
  second, SmokeResult, Output, Outside, out_of_fuel, Action, is_zero, SmokeClass,
  deployment_rollout, pod_running,
}
use mcp_kubernetes_platform.Sandbox.Commands.{
  run_process, read_time, pause, decoded, collect_events,
}

-- one more character of the line that has begun
abbrev on_line : ℕ → List (List ℕ) → List (List ℕ)
on_line c [] = (c ∷ []) ∷ []
on_line c (l ∷ ls) = (c ∷ l) ∷ ls

-- `str.splitlines`. The flags say that a line has begun, and that the last character was `\r`.
unfoldable pub split_lines : Bool → Bool → List ℕ → List (List ℕ)
split_lines begun cr [] = if begun then [] ∷ [] else []
split_lines begun cr (c ∷ s) =
    if cr && eqb c 10
    then split_lines false false s
    else if is_break c
    then [] ∷ split_lines false (eqb c 13) s
    else on_line c (split_lines true false s)

abbrev strip : List ℕ → List ℕ
strip s = lstrip (rstrip s)

abbrev is_running : List ℕ → Bool
is_running l = same_codes (strip l) (codes "Running")

abbrev pub all_running : List (List ℕ) → Bool
all_running [] = false
all_running (p ∷ ps) = all is_running (p ∷ ps)

-- `phases and all(p.strip() == "Running" for p in phases)`
unfoldable pub pods_run : String → Bool
pods_run text = all_running (split_lines false false (strip (codes text)))

-- SMOKE_REGISTRY
abbrev pub smoke_registry : List (String × SmokeClass)
smoke_registry =
    ("pod_restart", pod_running)
    ∷ ("implement", deployment_rollout)
    ∷ ("rewrite", deployment_rollout)
    ∷ ("wire-up", deployment_rollout)
    ∷ ("design", deployment_rollout)
    ∷ ("resource_patch", deployment_rollout)
    ∷ []

module _ (env : Outside) where
  unfoldable pub run_rollout : String → ℕ → String → Action SmokeResult
  run_rollout deployment timeout kubeconfig =
      let args =
        "kubectl"
        ∷ "rollout"
        ∷ "status"
        ∷ ("deployment/" <> deployment)
        ∷ "--timeout"
        ∷ (show timeout <> "s")
        ∷ "--kubeconfig"
        ∷ kubeconfig
        ∷ [] in
      do
        out ← run_process env args none
        events ← collect_events env kubeconfig
        logs ← decoded env out.stdout
        pure (record { passed = is_zero out.returncode; logs = logs; events = events })

  abbrev pub get_phases : String → List String
  get_phases kubeconfig =
      "kubectl" ∷ "get" ∷ "pods" ∷ "-n" ∷ "default" ∷ "--no-headers" ∷ "-o"
      ∷ "custom-columns=STATUS:.status.phase" ∷ "--kubeconfig" ∷ kubeconfig ∷ []

  unfoldable pub smoke_passed : String → Output → Action SmokeResult
  smoke_passed kubeconfig out = do
    logs ← decoded env out.stdout
    events ← collect_events env kubeconfig
    pure (record { passed = true; logs = logs; events = events })

  unfoldable pub timed_out : String → Action SmokeResult
  timed_out kubeconfig = do
    events ← collect_events env kubeconfig
    pure (record { passed = false; logs = "Timeout: pods did not reach Running"; events = events })

  -- the body of the loop
  unfoldable pub look_at_pods : String → Action SmokeResult → Action SmokeResult
  look_at_pods kubeconfig again = run_process env (get_phases kubeconfig) none >>= λ out.
      decoded env out.stdout >>= λ text.
      if pods_run text then smoke_passed kubeconfig out else (pause env (2 * second) >> again)

  unfoldable pub phase_loop : ℕ → ℕ → String → Action SmokeResult
  phase_loop zero deadline kubeconfig = raise out_of_fuel
  phase_loop (suc fuel) deadline kubeconfig =
      let again = phase_loop fuel deadline kubeconfig in
      read_time env >>= λ now.
      if ltb now deadline then look_at_pods kubeconfig again else timed_out kubeconfig

  unfoldable pub run_phases : ℕ → String → Action SmokeResult
  run_phases fuel kubeconfig =
      read_time env >>= λ start. phase_loop fuel (start + 20 * second) kubeconfig

  -- `smoke_cls().run(kubeconfig)`, with the defaults of `DeploymentRolloutSmoke`
  unfoldable pub run_smoke : ℕ → SmokeClass → String → Action SmokeResult
  run_smoke fuel deployment_rollout kubeconfig = run_rollout "sandbox-probe" 25 kubeconfig
  run_smoke fuel pod_running kubeconfig = run_phases fuel kubeconfig

-- SMOKE_REGISTRY.get(fix_class, DeploymentRolloutSmoke)
unfoldable pub smoke_class : String → SmokeClass
smoke_class fix_class = get_or (lookup fix_class smoke_registry) deployment_rollout
