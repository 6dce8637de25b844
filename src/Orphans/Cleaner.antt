-- ===== src/Orphans/Cleaner.antt =====
-- The two methods of `OrphanJobCleaner`.
use mcp_kubernetes_platform.Prelude.{
  ℕ, ◌+◌, ◌*◌, Bool, false, String, Option, none, some, List, [], ◌∷◌, ◌++◌, ◌==◌, ltb, is_in, keep,
  get_or, text_or, if◌then◌else◌,
}
use mcp_kubernetes_platform.Orphans.Jobs.{OwnerReference, JobMeta, Job, OrphanJob, CleanupResult}

abbrev pub trading_namespaces : List String
trading_namespaces = "trading" ∷ "brightflow-live" ∷ "ibkr-real-money-gateway" ∷ []

-- The set `current_cj_uids`, from the uids of the CronJobs; None and the empty text are left out.
unfoldable pub known_uids : List (Option String) → List String
known_uids [] = []
known_uids (none ∷ rest) = known_uids rest
known_uids (some uid ∷ rest) = if uid == "" then known_uids rest else uid ∷ known_uids rest

-- `ref_uid in current_cj_uids`
unfoldable pub owner_exists : List String → OwnerReference → Bool
owner_exists uids r = elim r.uid [ none ↦ false | some uid ↦ is_in uid uids ]

-- [r for r in refs if r.kind == "CronJob"]
unfoldable pub cron_job_refs : JobMeta → List OwnerReference
cron_job_refs meta = keep (λ r. r.kind == "CronJob") (get_or meta.owner_references [])

-- `now - creation < grace`, by an addition; a job without a time is past its grace period.
unfoldable pub in_grace : ℕ → ℕ → Option ℕ → Bool
in_grace now grace none = false
in_grace now grace (some creation) = ltb now (creation + grace)

-- `active > 0`
unfoldable pub has_active : Job → Bool
has_active job = ltb 0 (get_or job.active 0)

-- `read_now` is `datetime.now()` when so many orphans have been found.
module _ (read_now : List OrphanJob → ℕ) (uids : List String) (now grace : ℕ) where
  -- the body of the loop over the references
  unfoldable pub visit_ref : Job → JobMeta → OwnerReference → List OrphanJob → List OrphanJob
  visit_ref job meta r found =
      if owner_exists uids r
      then found
      else if in_grace now grace meta.creation_timestamp
      then found
      else found
        ++ record {
          name = meta.name;
          namespace = meta.namespace;
          uid = text_or meta.uid "";
          creation_ts = get_or meta.creation_timestamp (read_now found);
          owner_ref_uid = r.uid;
          is_active = has_active job;
        }
          ∷ []

  unfoldable pub visit_refs : Job → JobMeta → List OwnerReference → List OrphanJob → List OrphanJob
  visit_refs job meta [] found = found
  visit_refs job meta (r ∷ rs) found = visit_refs job meta rs (visit_ref job meta r found)

  unfoldable pub visit_job : Job → Option JobMeta → List OrphanJob → List OrphanJob
  visit_job job none found = found
  visit_job job (some meta) found = visit_refs job meta (cron_job_refs meta) found

  unfoldable pub visit_jobs : List Job → List OrphanJob → List OrphanJob
  visit_jobs [] found = found
  visit_jobs (job ∷ jobs) found = visit_jobs jobs (visit_job job job.metadata found)

-- `find_orphan_jobs`, on the two lists that the client gave and the time that it reads first.
unfoldable pub find_orphan_jobs :
    (List OrphanJob → ℕ) → ℕ → ℕ → List (Option String) → List Job → List OrphanJob
find_orphan_jobs read_now now grace_period_minutes cron_jobs jobs =
    visit_jobs read_now (known_uids cron_jobs) now (grace_period_minutes * 60 * 1000000) jobs []

-- `job.namespace in TRADING_NAMESPACES`
unfoldable pub is_manual : OrphanJob → Bool
is_manual job = is_in job.namespace trading_namespaces

-- The three lists of `cleanup`, and the jobs that the client was told to delete, first to last.
pub record Cleaning : Type 0 where
  pub deleted : List String
  pub skipped_active : List String
  pub skipped_trading : List String
  pub requests : List OrphanJob

-- `accepts` is the client's answer to the next request; a request that raises is logged only.
module _ (accepts : List OrphanJob → Bool) where
  unfoldable pub delete_job : OrphanJob → Cleaning → Cleaning
  delete_job job c =
      let asked : Cleaning = record c { requests = c.requests ++ job ∷ [] } in
      if accepts c.requests then record asked { deleted = c.deleted ++ job.name ∷ [] } else asked

  -- the body of the loop of `cleanup`
  unfoldable pub clean_one : Bool → OrphanJob → Cleaning → Cleaning
  clean_one dry_run job c =
      if is_manual job
      then record c { skipped_trading = c.skipped_trading ++ job.name ∷ [] }
      else if job.is_active
      then record c { skipped_active = c.skipped_active ++ job.name ∷ [] }
      else if dry_run
      then record c { deleted = c.deleted ++ job.name ∷ [] }
      else delete_job job c

  unfoldable pub clean_all : Bool → List OrphanJob → Cleaning → Cleaning
  clean_all dry_run [] c = c
  clean_all dry_run (job ∷ jobs) c = clean_all dry_run jobs (clean_one dry_run job c)

  -- the result beside the requests made
  unfoldable pub cleanup : List OrphanJob → Bool → CleanupResult × List OrphanJob
  cleanup jobs dry_run =
      let c : Cleaning =
        clean_all dry_run jobs
          (record { deleted = []; skipped_active = []; skipped_trading = []; requests = [] }) in
      (
        record {
          deleted = c.deleted;
          skipped_active = c.skipped_active;
          skipped_trading = c.skipped_trading;
          dry_run = dry_run;
        },
        c.requests,
      )
