-- ===== src/Tests/Orphans.antt =====
-- The cleanup of orphan jobs on concrete jobs.
use mcp_kubernetes_platform.Prelude.{
  ℕ, ◌≡◌, refl, Bool, true, false, String, none, some, List, [], ◌∷◌, map, keep,
}
use mcp_kubernetes_platform.Orphans.Jobs.{Job, OrphanJob}
use mcp_kubernetes_platform.Orphans.Cleaner.{
  known_uids, owner_exists, cron_job_refs, in_grace, has_active, is_manual, find_orphan_jobs,
  visit_ref, visit_refs, visit_job, visit_jobs, delete_job, clean_one, clean_all, cleanup,
}
use mcp_kubernetes_platform.Orphans.Sorting.{busy, names, requested, cleanup-sorts}
use mcp_kubernetes_platform.Orphans.Search.{key, gather, orphans, find_orphan_jobs-keys}

abbrev orphan : String → String → Bool → OrphanJob
orphan ns name active = record {
  name = name;
  namespace = ns;
  uid = "u-1";
  creation_ts = 0;
  owner_ref_uid = some "cj-gone";
  is_active = active;
}

abbrev found : List OrphanJob
found =
    orphan "brightflow-live" "ledger" false
    ∷ orphan "shop" "report" true
    ∷ orphan "shop" "backup" false
    ∷ []

abbrev accepting : List OrphanJob → Bool
accepting h = true

deletes_backup : (cleanup accepting found false).0.deleted ≡ "backup" ∷ []
unfolding cleanup clean_all clean_one delete_job is_manual
deletes_backup = refl

cleanup-sorts_example :
    ((cleanup accepting found false).0.skipped_trading ≡ names (keep is_manual found))
    × ((cleanup accepting found false).0.skipped_active ≡ names (keep busy found))
    × ((cleanup accepting found false).1 ≡ keep (requested accepting false) found)
cleanup-sorts_example = cleanup-sorts accepting false found

abbrev old_job : Job
old_job = record {
  metadata = some (record {
    name = "backup-1";
    namespace = "shop";
    uid = some "u-2";
    owner_references = some (
        record { kind = "CronJob"; uid = some "cj-gone" }
        ∷ record { kind = "CronJob"; uid = some "cj-1" }
        ∷ []);
    creation_timestamp = some 5;
  });
  active = none;
}

abbrev at_ten : List OrphanJob → ℕ
at_ten h = 10

finds_one :
    map key (find_orphan_jobs at_ten 7200000000 60 (some "cj-1" ∷ none ∷ []) (old_job ∷ []))
    ≡ ("shop", "backup-1", some "cj-gone", false) ∷ []
unfolding find_orphan_jobs visit_jobs visit_job visit_refs visit_ref cron_job_refs owner_exists
    in_grace has_active known_uids
finds_one = refl

find_orphan_jobs-keys_example :
    map key (find_orphan_jobs at_ten 7200000000 60 (some "cj-1" ∷ none ∷ []) (old_job ∷ []))
    ≡ gather
        (λ job. orphans (some "cj-1" ∷ none ∷ []) 7200000000 60 job job.metadata)
        (old_job ∷ [])
find_orphan_jobs-keys_example =
    find_orphan_jobs-keys at_ten 7200000000 60 (some "cj-1" ∷ none ∷ []) (old_job ∷ [])
