-- ===== src/Worklist/Tables.antt =====
-- The two tables of src/worklist.py, as lists of rows in the order of insertion.
use mcp_kubernetes_platform.Prelude.{
  ℕ, Bool, true, false, String, Option, List, [], ◌∷◌, if◌then◌else◌,
}

-- the CHECK on tasks.status
pub data TaskStatus : Type 0 where
  queued claimed in_progress done failed : TaskStatus

pub record Task : Type 0 where
  pub id : ℕ
  pub prd_section : String
  pub title : String
  pub blockers : List ℕ
  pub deliverable_paths : List String
  pub status : TaskStatus
  pub claimed_by : Option String
  pub claimed_at : Option String
  pub completed_at : Option String
  pub pr_url : Option String

-- the CHECK on audit_runs.phase
pub data Phase : Type 0 where
  review synthesize claim implement verify finished escalated : Phase

pub record AuditRun : Type 0 where
  pub id : ℕ
  pub run_label : String
  pub phase : Phase
  pub iteration_count : ℕ
  pub started_at : String
  pub updated_at : String
  pub stopped_reason : Option String

-- UPDATE … SET … WHERE …
abbrev pub update : {A : Type 0} → (A → Bool) → (A → A) → List A → List A
update test change [] = []
update test change (x ∷ xs) = (if test x then change x else x) ∷ update test change xs

abbrev pub is_queued : TaskStatus → Bool
is_queued queued = true
is_queued _ = false

abbrev pub is_done : TaskStatus → Bool
is_done done = true
is_done _ = false
