-- ===== src/Sandbox/Data.antt =====
-- What a sandbox run asks of the outside. Times of the event loop are whole microseconds.
use mcp_kubernetes_platform.Prelude.{ℕ, String, Option, List, Bool, false, eqb}
use mcp_kubernetes_platform.Prelude.Effects.{Exec, Result}

abbrev pub second : ℕ
second = 1000000

abbrev pub Bytes : Type 0
Bytes = List ℕ

-- `events` is a JSON value, by its text.
pub record SmokeResult : Type 0 where
  pub passed : Bool
  pub logs : String
  pub events : String

-- the variables that are read from the environment
pub record Settings : Type 0 where
  pub ready_timeout : ℕ
  pub log_dir : String
  pub distro : String

-- A finished subprocess; `exited` is the return code where no signal ended it.
pub data ReturnCode : Type 0 where
  exited killed : ℕ → ReturnCode

pub record Output : Type 0 where
  pub returncode : ReturnCode
  pub stdout : Bytes
  pub stderr : Bytes

-- What `json.loads` gives: the values of an object stand as their texts.
pub data Document : Type 0 where
  object : List (String × String) → Document
  other : Document

-- A subprocess is one call, with its arguments and what is piped into it.
pub data Call : Type 0 where
  spawn : List String → Option String → Call
  loop_time acquire release : Call
  sleep : ℕ → Call
  make_dir unlink : String → Call
  write_text : String → String → Call

-- the last call first
abbrev pub History : Type 0
History = List Call

-- The answers, after the calls so far. An exception is its text.
pub record Outside : Type 0 where
  pub finished : History → List String → Option String → Result String Output
  pub time : History → ℕ
  -- the semaphore, whose `acquire` is cancelled or returns in the end
  pub acquired : History → Result String Unit
  -- a sleep, which returns or is cancelled
  pub slept : History → ℕ → Result String Unit
  -- mkdir, write_text and unlink
  pub on_disk : History → Call → Result String Unit
  pub loads : Bytes → Result String Document
  pub dumps : String → String
  pub decode : Bytes → Result String String
  pub lower : String → String
  -- `base / name` of pathlib
  pub join : String → String → String
  pub repr : List String → String

-- `out_of_fuel` is the model's own, for too few rounds of a loop.
pub data SandboxError : Type 0 where
  failed : String → SandboxError
  out_of_fuel : SandboxError

abbrev pub Action : Type 0 → Type 0
Action A = Exec SandboxError History A

abbrev pub is_zero : ReturnCode → Bool
is_zero (exited n) = eqb n 0
is_zero (killed n) = false

pub data SmokeClass : Type 0 where
  deployment_rollout pod_running : SmokeClass
