-- ===== src/Orphans/Jobs.antt =====
-- The data of src/analyzers/orphan_job_cleaner.py: what the Kubernetes client lists, and the two
-- data classes of src/models/cronjob_finding.py. Times are whole microseconds.
use mcp_kubernetes_platform.Prelude.{ℕ, Bool, String, Option, List}

pub record OwnerReference : Type 0 where
  pub kind : String
  pub uid : Option String

pub record JobMeta : Type 0 where
  pub name : String
  pub namespace : String
  pub uid : Option String
  pub owner_references : Option (List OwnerReference)
  pub creation_timestamp : Option ℕ

-- `active` is `status.active` where the job has a status.
pub record Job : Type 0 where
  pub metadata : Option JobMeta
  pub active : Option ℕ

pub record OrphanJob : Type 0 where
  pub name : String
  pub namespace : String
  pub uid : String
  pub creation_ts : ℕ
  pub owner_ref_uid : Option String
  pub is_active : Bool

pub record CleanupResult : Type 0 where
  pub deleted : List String
  pub skipped_active : List String
  pub skipped_trading : List String
  pub dry_run : Bool
