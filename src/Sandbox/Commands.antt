-- ===== src/Sandbox/Commands.antt =====
-- The subprocesses of a sandbox run, and its log file.
use Prim.Native.String.{String}
use mcp_kubernetes_platform.Prelude.{
  ℕ, Bool, ◌&&◌, not, Option, none, List, [], ◌∷◌, ◌<>◌, get_or, if◌then◌else◌,
}
use mcp_kubernetes_platform.Prelude.Effects.{Result, ok, raised, pure, raise, ◌>>=◌, ◌>>◌}
use mcp_kubernetes_platform.Prelude.Assoc.{lookup}
use mcp_kubernetes_platform.Sandbox.Data.{
  SmokeResult, Settings, ReturnCode, Output, Document, object, other, Call, spawn, loop_time, sleep,
  make_dir, write_text, Outside, SandboxError, failed, Action, Bytes, is_zero,
}

-- sep.join, at the line feed
unfoldable pub join_lines : List String → String
join_lines [] = ""
join_lines (l ∷ []) = l
join_lines (l ∷ m ∷ ls) = l <> "\n" <> join_lines (m ∷ ls)

abbrev pub from_outside : {A : Type 0} → Result String A → Result SandboxError A
from_outside (ok a) = ok a
from_outside (raised e) = raised (failed e)

-- `json.loads(stdout).get("items", [])`, where any exception gives `[]`
unfoldable pub items_in : Result String Document → String
items_in (ok (object fields)) = get_or (lookup "items" fields) "[]"
items_in (ok other) = "[]"
items_in (raised e) = "[]"

module _ (env : Outside) where
  unfoldable pub run_process : List String → Option String → Action Output
  run_process args input h = (from_outside (env.finished h args input), spawn args input ∷ h)

  unfoldable pub read_time : Action ℕ
  read_time h = (ok (env.time h), loop_time ∷ h)

  -- asyncio.sleep, where a cancelled run raises
  unfoldable pub pause : ℕ → Action Unit
  pause n h = (from_outside (env.slept h n), sleep n ∷ h)

  -- a call on the file system
  unfoldable pub touch : Call → Action Unit
  touch c h = (from_outside (env.on_disk h c), c ∷ h)

  unfoldable pub decoded : Bytes → Action String
  decoded b h = (from_outside (env.decode b), h)

  -- _run_cmd
  unfoldable pub run_cmd : Bool → List String → Action (ReturnCode × (String × String))
  run_cmd check args = run_process args none >>= λ out.
      if check && not (is_zero out.returncode)
      then (decoded out.stderr >>= λ e.
          raise (failed ("Command " <> env.repr args <> " failed: " <> e)))
      else (decoded out.stdout >>= λ text.
          decoded out.stderr >>= λ errors. pure (out.returncode, (text, errors)))

  -- _collect_events
  unfoldable pub collect_events : String → Action String
  collect_events kubeconfig = do
    out ←
        run_process
          ("kubectl" ∷ "get" ∷ "events" ∷ "-A" ∷ "-o" ∷ "json" ∷ "--kubeconfig" ∷ kubeconfig ∷ [])
          none
    pure (items_in (env.loads out.stdout))

  unfoldable pub log_text : String → SmokeResult → String
  log_text manifest_yaml smoke = join_lines (
      "=== applied manifest diff ==="
      ∷ manifest_yaml
      ∷ "--- smoke test output ---"
      ∷ smoke.logs
      ∷ "--- kubernetes events ---"
      ∷ env.dumps smoke.events
      ∷ [])

  unfoldable pub write_sandbox_log :
      Settings → String → String → SmokeResult → Option String → Action String
  write_sandbox_log cfg run_id manifest_yaml smoke base_dir =
      let log_dir = env.join (get_or base_dir cfg.log_dir) run_id in
      let log_path = env.join log_dir "sandbox.log" in
      do
        touch (make_dir log_dir)
        touch (write_text log_path (log_text manifest_yaml smoke))
        pure log_path
