-- ===== src/Ladder/Types.antt =====
-- The data of src/auto_remediate/remediation_ladder.py, and what a ladder asks of the outside: the
-- Kubernetes client, the clocks, `uuid4` and the webhook. Times are whole microseconds.
use mcp_kubernetes_platform.Prelude.{ℕ, Bool, String, Option, List}
use mcp_kubernetes_platform.Prelude.Effects.{Result, Exec}

abbrev pub second : ℕ
second = 1000000

pub data LadderState : Type 0 where
  idle restart_issued watch_healing healed still_sick analyzing propose_fix : LadderState
  sandbox_verifying apply_state escalate_state : LadderState

pub record ResourceRef : Type 0 where
  pub namespace : String
  pub kind : String
  pub name : String

pub record PodDiagnosis : Type 0 where
  pub resource : ResourceRef
  pub failure_class : String
  pub container_name : String
  pub exit_code : Option ℕ
  pub restart_count : ℕ
  pub log_tail : String
  pub event_reasons : List String
  pub recommended_fix : String

-- the dict `evidence` of a DPO pair, which has these keys
pub record Evidence : Type 0 where
  pub failure_class : String
  pub exit_code : Option ℕ
  pub restart_count : ℕ
  pub event_reasons : List String
  pub log_tail_lines : ℕ

pub record DpoPair : Type 0 where
  pub session_id : String
  pub prompt : String
  pub rejected_action : String
  pub rejected_outcome : String
  pub chosen_action : String
  pub chosen_outcome : String
  pub evidence : Evidence

pub record LadderSession : Type 0 where
  pub session_id : String
  pub resource : ResourceRef
  pub state : LadderState
  pub restart_ts : Option ℕ
  pub heal_deadline_ts : Option ℕ
  pub ladder_cycles_this_hour : ℕ
  pub dpo_pair : Option DpoPair
  pub created_at : ℕ
  pub updated_at : ℕ

-- The exceptions of the module, those that Python itself raises, and the client's. `out_of_fuel`
-- is the model's own, for a poll loop that is given too few rounds.
pub data LadderError : Type 0 where
  protected_namespace_error : String → String → LadderError
  circuit_breaker_error : String → String → LadderError
  namespace_circuit_open_error : String → ℕ → LadderError
  value_error : String → ℕ → LadderError
  assertion_error type_error out_of_fuel : LadderError
  api_exception : ℕ → LadderError

-- What the client returns. `waiting` is `cs.state.waiting` where both are there, with its reason;
-- `exit_code` is `cs.last_state.terminated.exit_code` where those are.
pub record ContainerStatus : Type 0 where
  pub name : String
  pub ready : Bool
  pub restart_count : Option ℕ
  pub waiting : Option (Option String)
  pub exit_code : Option ℕ

-- a `datetime`, with or without an offset from UTC
pub record Timestamp : Type 0 where
  pub aware : Bool
  pub at : ℕ

pub record Event : Type 0 where
  pub type : String
  pub reason : Option String
  pub last_timestamp : Option Timestamp

-- the body of a patch: the restart annotation, or a patch that the caller has
pub data Patch : Type 0 where
  restarted_at : ℕ → Patch
  given : String → Patch

-- Every call to the outside, in the order made; a history has the last call first.
pub data Call : Type 0 where
  utcnow monotonic uuid4 : Call
  read_pod list_events : String → String → Call
  read_log : String → String → String → Call
  patch_deployment patch_stateful_set patch_daemon_set : String → String → Patch → Call
  post_webhook : String → Call
  sleep : ℕ → Call

abbrev pub History : Type 0
History = List Call

-- The answers, each of which may depend on all that has been called before. An error of the
-- Kubernetes client is its HTTP status.
pub record Outside : Type 0 where
  pub utc : History → ℕ
  pub clock : History → ℕ
  pub uuid : History → String
  -- `datetime.timestamp` of a naive time, which Python reads as local time
  pub naive_timestamp : ℕ → ℕ
  pub pod : History → Result ℕ (Option (List ContainerStatus))
  pub events : History → Result ℕ (List Event)
  -- `none` is an exception, which the caller swallows
  pub log : History → Option String
  pub patched : History → Result ℕ Unit

-- What `__init__` and the environment variables fix.
pub record Settings : Type 0 where
  pub dry_run : Bool
  pub escalation_webhook : String
  pub crash_threshold : ℕ
  pub ns_cap : ℕ

abbrev pub watch_timeout_seconds : ℕ
watch_timeout_seconds = 300

abbrev pub max_cycles_per_hour : ℕ
max_cycles_per_hour = 2

-- A session that the ladder mutates, beside the calls made so far.
pub record World : Type 0 where
  pub session : LadderSession
  pub calls : History

abbrev pub Action : Type 0 → Type 0
Action A = Exec LadderError World A
