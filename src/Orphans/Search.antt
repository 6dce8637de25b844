-- ===== src/Orphans/Search.antt =====
-- Which jobs `find_orphan_jobs` finds.
use mcp_kubernetes_platform.Prelude.{
  ℕ, ◌+◌, ◌*◌, ◌≡◌, refl, sym, ap, ◌∙◌, Bool, true, false, not, ◌&&◌, ◌==◌, eq_iff, ltb, any, is_in,
  keep, get_or, String, Option, none, some, List, [], ◌∷◌, ◌++◌, map, append_assoc, append-nil,
  arith, inl, inr, Bool-cases, Option-cases, if◌then◌else◌,
}
use mathlib.Core.List.{map-append}
use mcp_kubernetes_platform.Orphans.Jobs.{OwnerReference, JobMeta, Job, OrphanJob}
use mcp_kubernetes_platform.Orphans.Cleaner.{
  known_uids, owner_exists, cron_job_refs, in_grace, has_active, visit_ref, visit_refs, visit_job,
  visit_jobs, find_orphan_jobs,
}

-- namespace and name of the job, the uid of the CronJob that is gone, and whether pods are active
abbrev pub Key : Type 0
Key = String × String × Option String × Bool

abbrev pub key : OrphanJob → Key
key o = (o.namespace, o.name, o.owner_ref_uid, o.is_active)

-- the lists of each element, one after the other
abbrev pub gather : {A B : Type 0} → (A → List B) → List A → List B
gather f [] = []
gather f (x ∷ xs) = f x ++ gather f xs

-- The specification, on the lists that the client gives. A CronJob with this uid is listed; the uid is
-- a text that is not empty.
abbrev pub is_listed : List (Option String) → Option String → Bool
is_listed listed none = false
is_listed listed (some uid) =
    not (uid == "") && any (λ c. elim c [ none ↦ false | some u ↦ u == uid ]) listed

-- younger than so many minutes, of 60 seconds of 1,000,000 microseconds
abbrev pub is_young : ℕ → ℕ → Option ℕ → Bool
is_young now minutes none = false
is_young now minutes (some created) = ltb now (created + minutes * 60 * 1000000)

abbrev pub has_pods : Option ℕ → Bool
has_pods none = false
has_pods (some n) = ltb 0 n

abbrev pub references : Option (List OwnerReference) → List OwnerReference
references none = []
references (some rs) = rs

abbrev is_cron_job : OwnerReference → Bool
is_cron_job r = r.kind == "CronJob"

get_or-references : (o : Option (List OwnerReference)) → get_or o [] ≡ references o
get_or-references none = refl
get_or-references (some rs) = refl

eq_comm : (s t : String) → s == t ≡ t == s
eq_comm s t = ground (arith, eq_iff s t, eq_iff t s)

is_in-known_uids :
    (uid : String) (listed : List (Option String))
    → is_in uid (known_uids listed) ≡ is_listed listed (some uid)
unfolding known_uids
is_in-known_uids uid [] = ground arith
is_in-known_uids uid (none ∷ listed) = is_in-known_uids uid listed
is_in-known_uids uid (some u ∷ listed) = elim (Bool-cases (u == "")) [
  | inl empty ↦
      ground (arith, empty, is_in-known_uids uid listed, eq_iff u "", eq_iff u uid, eq_iff uid "")
  | inr full ↦ ground (
    arith,
    full,
    is_in-known_uids uid listed,
    eq_comm u uid,
    eq_iff uid "",
    eq_iff u uid,
    eq_iff u "",
  )
]

owner_exists-listed :
    (listed : List (Option String)) (r : OwnerReference)
    → owner_exists (known_uids listed) r ≡ is_listed listed r.uid
unfolding owner_exists
owner_exists-listed listed r = elim (Option-cases r.uid) [
  | inl e ↦ rw e refl
  | inr (uid, e) ↦ rw e (is_in-known_uids uid listed)
]

module _ (listed : List (Option String)) (now minutes : ℕ) where
  -- what a reference of a job makes of it
  abbrev pub orphaned : Job → JobMeta → OwnerReference → List Key
  orphaned job meta r =
      if r.kind == "CronJob"
        && not (is_listed listed r.uid)
        && not (is_young now minutes meta.creation_timestamp)
      then (meta.namespace, meta.name, r.uid, has_pods job.active) ∷ []
      else []

  abbrev pub orphans : Job → Option JobMeta → List Key
  orphans job none = []
  orphans job (some meta) = gather (orphaned job meta) (references meta.owner_references)

  in_grace-young : (o : Option ℕ) → in_grace now (minutes * 60 * 1000000) o ≡ is_young now minutes o
  unfolding in_grace
  in_grace-young none = refl
  in_grace-young (some t) = refl

  has_active-pods : (job : Job) → has_active job ≡ has_pods job.active
  unfolding has_active
  has_active-pods job = elim (Option-cases job.active) [
    | inl e ↦ rw e refl
    | inr (n, e) ↦ rw e refl
  ]

  module _ (read_now : List OrphanJob → ℕ) where
    abbrev visited : Job → JobMeta → List OwnerReference → List OrphanJob → List OrphanJob
    visited = visit_refs read_now (known_uids listed) now (minutes * 60 * 1000000)

    visit_ref-orphaned :
        (job : Job) (meta : JobMeta) (r : OwnerReference) (found : List OrphanJob)
        → r.kind == "CronJob" ≡ true
        → map key
            (visit_ref read_now (known_uids listed) now (minutes * 60 * 1000000) job meta r found)
          ≡ map key found ++ orphaned job meta r
    unfolding visit_ref
    visit_ref-orphaned job meta r found cron =
        rw
          (
            cron,
            owner_exists-listed listed r,
            in_grace-young meta.creation_timestamp,
            has_active-pods job,
          )
          (grind (arith, append-nil, map-append))

    visit_refs-orphaned :
        (job : Job) (meta : JobMeta) (rs : List OwnerReference) (found : List OrphanJob)
        → map key (visited job meta (keep is_cron_job rs) found)
          ≡ map key found ++ gather (orphaned job meta) rs
    unfolding visit_refs
    visit_refs-orphaned job meta [] found = sym (append-nil (map key found))
    visit_refs-orphaned job meta (r ∷ rs) found = elim (Bool-cases (r.kind == "CronJob")) [
      | inl cron ↦
          let one =
            visit_ref read_now (known_uids listed) now (minutes * 60 * 1000000) job meta r found in
          let kept : keep is_cron_job (r ∷ rs) ≡ r ∷ keep is_cron_job rs = ground (arith, cron) in
          ap (λ q. map key (visited job meta q found)) kept
          ∙ visit_refs-orphaned job meta rs one
          ∙ ap (λ ks. ks ++ gather (orphaned job meta) rs)
              (visit_ref-orphaned job meta r found cron)
          ∙ append_assoc (map key found) (orphaned job meta r) (gather (orphaned job meta) rs)
      | inr other ↦
          let kept : keep is_cron_job (r ∷ rs) ≡ keep is_cron_job rs = ground (arith, other) in
          let none_more : orphaned job meta r ≡ [] = ground (arith, other) in
          ap (λ q. map key (visited job meta q found)) kept
          ∙ visit_refs-orphaned job meta rs found
          ∙ ap (λ ks. map key found ++ (ks ++ gather (orphaned job meta) rs)) (sym none_more)
    ]

    visit_job-orphans :
        (job : Job) (meta : Option JobMeta) (found : List OrphanJob)
        → map key
            (visit_job read_now (known_uids listed) now (minutes * 60 * 1000000) job meta found)
          ≡ map key found ++ orphans job meta
    unfolding visit_job cron_job_refs
    visit_job-orphans job none found = sym (append-nil (map key found))
    visit_job-orphans job (some meta) found =
        visit_refs-orphaned job meta (get_or meta.owner_references []) found
        ∙ ap (λ rs. map key found ++ gather (orphaned job meta) rs)
            (get_or-references meta.owner_references)

    visit_jobs-orphans :
        (jobs : List Job) (found : List OrphanJob)
        → map key (visit_jobs read_now (known_uids listed) now (minutes * 60 * 1000000) jobs found)
          ≡ map key found ++ gather (λ job. orphans job job.metadata) jobs
    unfolding visit_jobs
    visit_jobs-orphans [] found = sym (append-nil (map key found))
    visit_jobs-orphans (job ∷ jobs) found =
        let one =
          visit_job read_now (known_uids listed) now (minutes * 60 * 1000000) job job.metadata
            found in
        visit_jobs-orphans jobs one
        ∙ ap (λ ks. ks ++ gather (λ job. orphans job job.metadata) jobs)
            (visit_job-orphans job job.metadata found)
        ∙ append_assoc (map key found) (orphans job job.metadata)
            (gather (λ job. orphans job job.metadata) jobs)

-- The search finds, in the order of the jobs and of their references, one orphan for each reference
-- of kind CronJob whose uid is empty or that of no listed CronJob, of each job that has no time or is
-- at least as old as the grace period in minutes. The orphan has the namespace, the name and the
-- reference's uid, and says whether pods of the job are active.
pub find_orphan_jobs-keys :
    (read_now : List OrphanJob → ℕ) (now minutes : ℕ) (cron_jobs : List (Option String))
    (jobs : List Job)
    → map key (find_orphan_jobs read_now now minutes cron_jobs jobs)
      ≡ gather (λ job. orphans cron_jobs now minutes job job.metadata) jobs
unfolding find_orphan_jobs
find_orphan_jobs-keys read_now now minutes cron_jobs jobs =
    visit_jobs-orphans cron_jobs now minutes read_now jobs []
