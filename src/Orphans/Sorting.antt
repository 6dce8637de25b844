-- ===== src/Orphans/Sorting.antt =====
-- What `cleanup` does with each job.
use mcp_kubernetes_platform.Prelude.{
  ◌≡◌, refl, ◌∙◌, sym, ap, Bool, true, ◌&&◌, not, String, List, [], ◌∷◌, ◌++◌, map, keep,
  if◌then◌else◌, ◌⊎◌, inl, inr, arith, append_assoc, append-nil,
}
use mcp_kubernetes_platform.Orphans.Jobs.{OrphanJob}
use mcp_kubernetes_platform.Orphans.Cleaner.{
  is_manual, Cleaning, delete_job, clean_one, clean_all, cleanup,
}

-- the jobs that `cleanup` means to delete
abbrev pub deletable : OrphanJob → Bool
deletable j = not (is_manual j) && not j.is_active

-- off the trading namespaces, but with active pods
abbrev pub busy : OrphanJob → Bool
busy j = not (is_manual j) && j.is_active

abbrev pub names : List OrphanJob → List String
names js = map (λ j. j.name) js

module _ {B : Type 0} (part : OrphanJob → List B) where
  abbrev parts : List OrphanJob → List B
  parts [] = []
  parts (j ∷ js) = part j ++ parts js

  -- To each of its lists a cleaning adds, for each job in turn, what one step adds for it.
  clean_all-parts :
      (field : Cleaning → List B) (accepts : List OrphanJob → Bool) (dry_run : Bool)
      → ((j : OrphanJob) (c : Cleaning) → field (clean_one accepts dry_run j c) ≡ field c ++ part j)
      → (js : List OrphanJob) (c : Cleaning)
      → field (clean_all accepts dry_run js c) ≡ field c ++ parts js
  unfolding clean_all
  clean_all-parts field accepts dry_run adds [] c = sym (append-nil (field c))
  clean_all-parts field accepts dry_run adds (j ∷ js) c =
      clean_all-parts field accepts dry_run adds js (clean_one accepts dry_run j c)
      ∙ ap (λ xs. xs ++ parts js) (adds j c)
      ∙ append_assoc (field c) (part j) (parts js)

-- a job that passes a test, and its name
abbrev if_passes : {B : Type 0} → (OrphanJob → B) → (OrphanJob → Bool) → OrphanJob → List B
if_passes f test j = if test j then f j ∷ [] else []

parts-keep :
    {B : Type 0} (f : OrphanJob → B) (test : OrphanJob → Bool) (js : List OrphanJob)
    → parts (if_passes f test) js ≡ map f (keep test js)
parts-keep f test [] = refl
parts-keep f test (j ∷ js) = ground (arith, parts-keep f test js)

map_same : (js : List OrphanJob) → map (λ j. j) js ≡ js
map_same [] = refl
map_same (j ∷ js) = ap (λ rest. j ∷ rest) (map_same js)

module _ (accepts : List OrphanJob → Bool) (dry_run : Bool) where
  adds-skipped_trading :
      (j : OrphanJob) (c : Cleaning)
      → (clean_one accepts dry_run j c).skipped_trading
        ≡ c.skipped_trading ++ if_passes (λ j. j.name) is_manual j
  unfolding clean_one delete_job
  adds-skipped_trading j c = ground (arith, append-nil c.skipped_trading)

  adds-skipped_active :
      (j : OrphanJob) (c : Cleaning)
      → (clean_one accepts dry_run j c).skipped_active
        ≡ c.skipped_active ++ if_passes (λ j. j.name) busy j
  unfolding clean_one delete_job
  adds-skipped_active j c = ground (arith, append-nil c.skipped_active)

  -- a request is made outside dry runs only
  abbrev pub requested : OrphanJob → Bool
  requested j = deletable j && not dry_run

  adds-requests :
      (j : OrphanJob) (c : Cleaning)
      → (clean_one accepts dry_run j c).requests ≡ c.requests ++ if_passes (λ j. j) requested j
  unfolding clean_one delete_job
  adds-requests j c = ground (arith, append-nil c.requests)

  -- Whatever the client answers, `cleanup` skips exactly the jobs on its trading namespaces and,
  -- of the others, those with active pods; it asks the client for no deletion in a dry run, and
  -- else for that of each job that is left, once and in order.
  pub cleanup-sorts :
      (js : List OrphanJob)
      → ((cleanup accepts js dry_run).0.skipped_trading ≡ names (keep is_manual js))
        × ((cleanup accepts js dry_run).0.skipped_active ≡ names (keep busy js))
        × ((cleanup accepts js dry_run).1 ≡ keep requested js)
  unfolding cleanup
  cleanup-sorts js = (
    clean_all-parts _ (λ c. c.skipped_trading) accepts dry_run adds-skipped_trading js _
        ∙ parts-keep (λ j. j.name) is_manual js,
    clean_all-parts _ (λ c. c.skipped_active) accepts dry_run adds-skipped_active js _
        ∙ parts-keep (λ j. j.name) busy js,
    clean_all-parts _ (λ c. c.requests) accepts dry_run adds-requests js _
        ∙ parts-keep (λ j. j) requested js
        ∙ map_same (keep requested js),
  )

  adds-deleted :
      (dry_run ≡ true) ⊎ ((h : List OrphanJob) → accepts h ≡ true)
      → (j : OrphanJob) (c : Cleaning)
      → (clean_one accepts dry_run j c).deleted ≡ c.deleted ++ if_passes (λ j. j.name) deletable j
  unfolding clean_one delete_job
  adds-deleted h j c = elim h [
    | inl dry ↦ ground (arith, dry, append-nil c.deleted)
    | inr fine ↦ ground (arith, fine c.requests, append-nil c.deleted)
  ]

  -- In a dry run, and with a client that refuses nothing, the jobs reported as deleted are all
  -- those that are neither on a trading namespace nor active.
  pub cleanup-deleted :
      (js : List OrphanJob)
      → (dry_run ≡ true) ⊎ ((h : List OrphanJob) → accepts h ≡ true)
      → (cleanup accepts js dry_run).0.deleted ≡ names (keep deletable js)
  unfolding cleanup
  cleanup-deleted js h =
      clean_all-parts _ (λ c. c.deleted) accepts dry_run (adds-deleted h) js _
      ∙ parts-keep (λ j. j.name) deletable js
