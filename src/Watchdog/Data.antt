-- ===== src/Watchdog/Data.antt =====
-- What `run_watchdog` reads and keeps. Times are whole microseconds; wall-clock times are taken
-- without their offset, as the code compares them.
use mcp_kubernetes_platform.Prelude.{
  ℕ, ℤ, pos, negsuc, ◌-◌, String, Option, List, leb, if◌then◌else◌,
}
use mcp_kubernetes_platform.Prelude.Effects.{Exec, Result}

abbrev pub second : ℕ
second = 1000000

-- a - b
abbrev pub difference : ℕ → ℕ → ℤ
difference a b = if leb b a then pos (a - b) else negsuc (b - a - 1)

-- the Literal of `WatchResult.result`
pub data Verdict : Type 0 where
  healed still_sick deleted namespace_deleted timeout : Verdict

-- `waiting` is `cs.state.waiting` where both are there, with its reason.
pub record ContainerStatus : Type 0 where
  pub restart_count : Option ℕ
  pub waiting : Option (Option String)

pub record Condition : Type 0 where
  pub type : String
  pub status : String

pub record Pod : Type 0 where
  pub phase : Option String
  pub node_name : Option String
  pub container_statuses : Option (List ContainerStatus)
  pub init_container_statuses : Option (List ContainerStatus)
  pub conditions : Option (List Condition)
  pub deletion_timestamp : Option ℕ
  pub finalizers : Option (List String)

-- an event of the stream, and the dict that is kept of it
pub record RawEvent : Type 0 where
  pub uid : String
  pub reason : Option String
  pub message : Option String
  pub last_timestamp : Option ℕ
  pub count : Option ℕ

pub record SeenEvent : Type 0 where
  pub reason : Option String
  pub message : Option String
  pub last_timestamp : Option ℕ
  pub count : Option ℕ

pub record WatchResult : Type 0 where
  pub result : Verdict
  pub duration_seconds : ℕ
  pub events_seen : List SeenEvent
  pub restart_count_delta : ℤ
  pub final_phase : String

-- The calls to the outside, and its answers, which may depend on the calls so far, the last first.
pub data Call : Type 0 where
  monotonic utcnow read_pod end_stream : Call
  sleep : ℕ → Call

abbrev pub History : Type 0
History = List Call

pub record Outside : Type 0 where
  pub clock : History → ℕ
  pub utc : History → ℕ
  -- an error is an HTTP status
  pub pod : History → Result ℕ Pod
  -- the events that the other task receives while this one sleeps
  pub streamed : History → List RawEvent
  -- what awaiting the cancelled task raises, if it ended by an error
  pub stream_error : History → Option ℕ

-- `out_of_fuel` is the model's own, for too few rounds.
pub data WatchError : Type 0 where
  api_exception stream_exception : ℕ → WatchError
  out_of_fuel : WatchError

-- What the two tasks share, beside the calls.
pub record World : Type 0 where
  pub calls : History
  pub events_seen : List SeenEvent
  pub event_timestamps_seen : List String

abbrev pub Action : Type 0 → Type 0
Action A = Exec WatchError World A
