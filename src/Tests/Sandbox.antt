-- ===== src/Tests/Sandbox.antt =====
-- Runs of the sandbox.
use mcp_kubernetes_platform.Prelude.{
  ◌≤◌, ℕ, ◌+◌, ◌≡◌, refl, true, false, [], ◌∷◌, arith, contains, begins, mentions,
}
use mcp_kubernetes_platform.Prelude.Effects.{ok}
use mcp_kubernetes_platform.Prelude.Assoc.{lookup}
use mcp_kubernetes_platform.Sandbox.Data.{
  SmokeResult, Settings, Output, exited, Call, sleep, Outside, History, other,
}
use mcp_kubernetes_platform.Sandbox.Commands.{
  items_in, run_process, read_time, touch, decoded, run_cmd, collect_events, write_sandbox_log,
}
use mcp_kubernetes_platform.Sandbox.Smoke.{run_rollout, run_smoke, smoke_class}
use mcp_kubernetes_platform.Sandbox.Lifecycle.{
  finally, looks_ready, ready_loop, wait_vcluster_ready, run_probe, try_manifest, set_up, tear_down,
  sandbox_lifecycle, acquire_slot, release_slot, run_sandbox,
}
use mcp_kubernetes_platform.Sandbox.Cleanup.{IsCleaned, run_sandbox-IsCleaned}
use mcp_kubernetes_platform.Sandbox.Applied.{Applied, run_sandbox-Applied}
use mcp_kubernetes_platform.Sandbox.Prompt.{ran_out, IsSteady}
use mcp_kubernetes_platform.Sandbox.Ending.{run_sandbox-ran_out}

abbrev clock : History → ℕ
clock [] = 0
clock (sleep n ∷ h) = clock h + n
clock (c ∷ h) = clock h

abbrev fine : Output
fine = record { returncode = exited 0; stdout = []; stderr = [] }

-- every command succeeds and prints "true"
abbrev env : Outside
env = record {
  finished = λ h args input. ok fine;
  time = clock;
  acquired = λ h. ok tt;
  slept = λ h n. ok tt;
  on_disk = λ h c. ok tt;
  loads = λ b. ok other;
  dumps = λ s. s;
  decode = λ b. ok "true";
  lower = λ s. s;
  join = λ base name. name;
  repr = λ args. "";
}

abbrev cfg : Settings
cfg = record { ready_timeout = 60; log_dir = "logs"; distro = "k3s" }

abbrev passed : SmokeResult
passed = record { passed = true; logs = "true"; events = "[]" }

clock-onward : (h : History) (c : Call) → clock h ≤ clock (c ∷ h)
clock-onward h (sleep n) = omega arith
clock-onward h c = omega arith

env-IsSteady : IsSteady env
env-IsSteady = record { onward = clock-onward; rested = λ h n e. omega arith }

run_passes : (run_sandbox env cfg 31 "ab" "m" "implement" []).0 ≡ ok passed
unfolding run_sandbox acquire_slot sandbox_lifecycle set_up run_cmd run_process decoded
    wait_vcluster_ready read_time ready_loop looks_ready mentions contains begins try_manifest
    run_probe run_smoke smoke_class lookup run_rollout collect_events items_in write_sandbox_log
    touch finally tear_down release_slot
run_passes = refl

run_sandbox-IsCleaned_example : IsCleaned "ab" [] (run_sandbox env cfg 31 "ab" "m" "implement" [])
run_sandbox-IsCleaned_example = run_sandbox-IsCleaned env cfg 31 "ab" "m" "implement" [] refl

run_sandbox-Applied_example :
    Applied env 31 "ab" "m" "implement" passed (run_sandbox env cfg 31 "ab" "m" "implement" []).1
run_sandbox-Applied_example =
    run_sandbox-Applied env cfg 31 "ab" "m" "implement" [] passed run_passes refl

run_sandbox-ran_out_example : ran_out (run_sandbox env cfg 31 "ab" "m" "implement" []).0 ≡ false
run_sandbox-ran_out_example =
    run_sandbox-ran_out env cfg 30 "ab" "m" "implement" [] env-IsSteady (omega arith) (omega arith)
