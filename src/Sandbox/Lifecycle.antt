-- ===== src/Sandbox/Lifecycle.antt =====
-- `_sandbox_lifecycle` and `run_sandbox`.
use Prim.Native.String.{String}
use mcp_kubernetes_platform.Prelude.{
  ℕ, zero, suc, ◌+◌, ◌*◌, Bool, true, false, ◌&&◌, none, some, List, [], ◌∷◌, ◌<>◌, ltb, mentions,
  show, if◌then◌else◌,
}
use mcp_kubernetes_platform.Prelude.Effects.{ok, pure, raise, lift, ◌>>=◌, ◌>>◌}
use mcp_kubernetes_platform.Sandbox.Data.{
  second, SmokeResult, Settings, ReturnCode, Output, unlink, acquire, release, Outside, out_of_fuel,
  Action, is_zero,
}
use mcp_kubernetes_platform.Sandbox.Commands.{
  join_lines, run_process, read_time, pause, touch, decoded, run_cmd, collect_events,
  write_sandbox_log, from_outside,
}
use mcp_kubernetes_platform.Sandbox.Smoke.{run_smoke, smoke_class}

-- PROBE_MANIFEST
abbrev pub probe_manifest : String
probe_manifest = join_lines (
    "apiVersion: apps/v1" ∷ "kind: Deployment" ∷ "metadata:" ∷ "  name: sandbox-probe"
    ∷ "  namespace: default" ∷ "spec:" ∷ "  replicas: 1" ∷ "  selector:" ∷ "    matchLabels:"
    ∷ "      app: sandbox-probe" ∷ "  template:" ∷ "    metadata:" ∷ "      labels:"
    ∷ "        app: sandbox-probe" ∷ "    spec:" ∷ "      containers:" ∷ "        - name: probe"
    ∷ "          image: gcr.io/google_containers/pause:3.9" ∷ "          resources:"
    ∷ "            requests:" ∷ "              cpu: \"1m\"" ∷ "              memory: \"4Mi\"" ∷ ""
    ∷ [])

-- f"sandbox-{run_id}", the cluster and its namespace
abbrev pub sandbox_name : String → String
sandbox_name run_id = "sandbox-" <> run_id

abbrev pub kubeconfig_of : String → String
kubeconfig_of run_id = "/tmp/sandbox-" <> run_id <> ".kubeconfig"

abbrev pub create_args : Settings → String → List String
create_args cfg run_id =
    "vcluster"
    ∷ "create"
    ∷ sandbox_name run_id
    ∷ "--namespace"
    ∷ sandbox_name run_id
    ∷ "--distro"
    ∷ cfg.distro
    ∷ "--connect=false"
    ∷ "--set"
    ∷ "sync.fromHost.nodes.enabled=true"
    ∷ "--set"
    ∷ "controlPlane.statefulSet.resources.requests.cpu=50m"
    ∷ "--set"
    ∷ "controlPlane.statefulSet.resources.requests.memory=128Mi"
    ∷ "--timeout"
    ∷ (show cfg.ready_timeout <> "s")
    ∷ []

abbrev pub connect_args : String → List String
connect_args run_id =
    "vcluster"
    ∷ "connect"
    ∷ sandbox_name run_id
    ∷ "--namespace"
    ∷ sandbox_name run_id
    ∷ "--kube-config"
    ∷ kubeconfig_of run_id
    ∷ "--background-proxy"
    ∷ []

abbrev pub apply_args : String → List String
apply_args kubeconfig = "kubectl" ∷ "apply" ∷ "-f" ∷ "-" ∷ "--kubeconfig" ∷ kubeconfig ∷ []

abbrev pub delete_args : String → List String
delete_args run_id =
    "vcluster"
    ∷ "delete"
    ∷ sandbox_name run_id
    ∷ "--namespace"
    ∷ sandbox_name run_id
    ∷ "--delete-namespace"
    ∷ []

abbrev pub ready_args : String → String → List String
ready_args run_id namespace =
    "kubectl"
    ∷ "get"
    ∷ "pods"
    ∷ "-n"
    ∷ namespace
    ∷ "-l"
    ∷ ("app=vcluster,release=" <> run_id)
    ∷ "--no-headers"
    ∷ "-o"
    ∷ "custom-columns=READY:.status.containerStatuses[0].ready"
    ∷ []

-- A `finally` clause: what it raises takes the place of what came before.
unfoldable pub finally : {A : Type 0} → Action A → Action Unit → Action A
finally m clause h = let (r, h') = m h in (clause >> lift r) h'

module _ (env : Outside) (cfg : Settings) where
  -- `"true" in stdout.lower()`
  unfoldable pub looks_ready : ReturnCode × (String × String) → Bool
  looks_ready (rc, (stdout, stderr)) = is_zero rc && mentions "true" (env.lower stdout)

  unfoldable pub ready_loop : ℕ → ℕ → String → String → Action Bool
  ready_loop zero deadline run_id namespace = raise out_of_fuel
  ready_loop (suc fuel) deadline run_id namespace =
      let again = ready_loop fuel deadline run_id namespace in
      read_time env >>= λ now.
      if ltb now deadline
      then (run_cmd env false (ready_args run_id namespace) >>= λ answer.
          if looks_ready answer then pure true else (pause env (2 * second) >> again))
      else pure false

  -- _wait_vcluster_ready
  unfoldable pub wait_vcluster_ready : ℕ → String → String → ℕ → Action Bool
  wait_vcluster_ready fuel run_id namespace timeout =
      read_time env >>= λ start. ready_loop fuel (start + timeout * second) run_id namespace

  unfoldable pub report_failure : String → String → Output → Action SmokeResult
  report_failure run_id manifest_yaml out = collect_events env (kubeconfig_of run_id) >>= λ events.
      decoded env out.stdout >>= λ text.
      let result : SmokeResult = record {
        passed = false;
        logs = "kubectl apply failed: " <> text;
        events = events;
      } in
      write_sandbox_log env cfg run_id manifest_yaml result none >> pure result

  -- the probe and the smoke test
  unfoldable pub run_probe : ℕ → String → String → String → Action SmokeResult
  run_probe fuel run_id manifest_yaml fix_class = do
    run_process env (apply_args (kubeconfig_of run_id)) (some probe_manifest)
    result ← run_smoke env fuel (smoke_class fix_class) (kubeconfig_of run_id)
    write_sandbox_log env cfg run_id manifest_yaml result none
    pure result

  -- what follows once the virtual cluster is ready
  unfoldable pub try_manifest : ℕ → String → String → String → Action SmokeResult
  try_manifest fuel run_id manifest_yaml fix_class =
      run_cmd env false (connect_args run_id) >>= λ _.
      run_process env (apply_args (kubeconfig_of run_id)) (some manifest_yaml) >>= λ out.
      if is_zero out.returncode
      then run_probe fuel run_id manifest_yaml fix_class
      else report_failure run_id manifest_yaml out

  unfoldable pub unavailable : SmokeResult
  unavailable = record {
    passed = false;
    logs = "sandbox unavailable: vcluster did not reach Ready within 60s";
    events = "[]";
  }

  -- the `try` block
  unfoldable pub set_up : ℕ → String → String → String → Action SmokeResult
  set_up fuel run_id manifest_yaml fix_class = run_cmd env false (create_args cfg run_id) >>= λ _.
      wait_vcluster_ready fuel run_id (sandbox_name run_id) cfg.ready_timeout >>= λ ready.
      if ready then try_manifest fuel run_id manifest_yaml fix_class else pure unavailable

  -- the `finally` block
  unfoldable pub tear_down : String → Action Unit
  tear_down run_id =
      run_cmd env false (delete_args run_id) >>= λ _. touch env (unlink (kubeconfig_of run_id))

  -- _sandbox_lifecycle
  unfoldable pub sandbox_lifecycle : ℕ → String → String → String → Action SmokeResult
  sandbox_lifecycle fuel run_id manifest_yaml fix_class =
      finally (set_up fuel run_id manifest_yaml fix_class) (tear_down run_id)

  unfoldable pub acquire_slot : Action Unit
  acquire_slot h = (from_outside (env.acquired h), acquire ∷ h)

  unfoldable pub release_slot : Action Unit
  release_slot h = (ok tt, release ∷ h)

  -- `async with _SANDBOX_SEM`
  unfoldable pub run_sandbox : ℕ → String → String → String → Action SmokeResult
  run_sandbox fuel run_id manifest_yaml fix_class =
      acquire_slot >> finally (sandbox_lifecycle fuel run_id manifest_yaml fix_class) release_slot
