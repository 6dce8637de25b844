-- ===== src/Tests/Worklist.antt =====
-- The worklist's theorems on a small table.
use mcp_kubernetes_platform.Prelude.{
  ℕ, suc, ◌<◌, ◌≤◌, ◌≡◌, ◌≢◌, inl, refl, none, some, List, [], ◌∷◌, arith, All, Any, All-map,
  if◌then◌else◌, leb,
}
use mcp_kubernetes_platform.Worklist.Tables.{claimed, Task, review, AuditRun, update}
use mcp_kubernetes_platform.Worklist.Tasks.{
  Seed, new_task, claim_next, claimable, least_id, find, blocks, has_id, claimed_for, same_key,
  seed, insert_or_ignore,
}
use mcp_kubernetes_platform.Worklist.Claims.{IsReady, claim_next-some}
use mcp_kubernetes_platform.Worklist.Progress.{claim_next-returns}
use mcp_kubernetes_platform.Worklist.Held.{IsHeld}
use mcp_kubernetes_platform.Worklist.Traces.{Operation, claim, finish, load, run, claim_once}

abbrev base : Seed
base = record {
  prd_section = "09";
  title = "Implement BaseAnalyzer";
  blockers = [];
  deliverable_paths = "src/analyzers/base.py" ∷ [];
}

abbrev pods : Seed
pods = record {
  prd_section = "09";
  title = "Implement PodAnalyzer";
  blockers = 1 ∷ [];
  deliverable_paths = [];
}

-- one more than the largest id
abbrev alloc : List Task → ℕ
alloc [] = 1
alloc (t ∷ ts) = let rest = alloc ts in if leb rest t.id then suc t.id else rest

alloc-fresh : (ts : List Task) → All (λ t. t.id < alloc ts) ts
alloc-fresh [] = tt
alloc-fresh (t ∷ ts) = (ground arith, All-map (λ a lt. ground arith) ts (alloc-fresh ts))

abbrev table : List Task
table = new_task 1 base ∷ new_task 2 pods ∷ []

seeded : seed alloc (base ∷ pods ∷ base ∷ []) [] ≡ table
unfolding seed insert_or_ignore same_key
seeded = refl

abbrev first : Task
first = record (new_task 1 base) {
  status = claimed;
  claimed_by = some "agent-a";
  claimed_at = some "t1";
}

claims_first : (claim_next "agent-a" "t1" table).0 ≡ some first
unfolding claim_next claimable blocks least_id find
claims_first = refl

claim_next-some_example :
    (first.status ≡ claimed)
    × (first.claimed_by ≡ some "agent-a")
    × Any (λ u. IsReady table u × (u.id ≡ 1)) table
    × All (λ u. IsReady table u → 1 ≤ u.id) table
    × ((claim_next "agent-a" "t1" table).1 ≡ update (has_id 1) (claimed_for "agent-a" "t1") table)
claim_next-some_example = claim_next-some "agent-a" "t1" table first claims_first

abbrev later : List Operation
later =
    claim "agent-b" "t2"
    ∷ finish 1 "agent-b" "stolen" "t3"
    ∷ finish 1 "agent-a" "https://example.org/1" "t4"
    ∷ load (base ∷ [])
    ∷ claim "agent-b" "t5"
    ∷ []

claim_once_example :
    All (λ j. j ≢ 1) (run alloc later (claim_next "agent-a" "t1" table).1).0
    × IsHeld 1 "agent-a" (run alloc later (claim_next "agent-a" "t1" table).1).1
claim_once_example =
    claim_once alloc alloc-fresh 1 "agent-a" "t1" table first later claims_first refl

abbrev started : AuditRun
started = record {
  id = 1;
  run_label = "audit-run-001";
  phase = review;
  iteration_count = 0;
  started_at = "t0";
  updated_at = "t0";
  stopped_reason = none;
}

claim_next-returns_example : (t : Task) × ((claim_next "agent-a" "t1" table).0 ≡ some t)
claim_next-returns_example =
    claim_next-returns "agent-a" "t1" (λ i. i) table
      (λ b e. absurd (cc e), (λ b e. ground (arith, e), tt)) (inl refl, (inl refl, tt)) (inl refl)
