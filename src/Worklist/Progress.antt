-- ===== src/Worklist/Progress.antt =====
-- That there is work to hand out as long as a task is queued.
use mcp_kubernetes_platform.Prelude.{
  ℕ, zero, suc, ◌≤◌, ◌<◌, ◌≡◌, ◌⊎◌, inl, inr, true, false, String, some, List, [], ◌∷◌, arith, All,
  Any, All-map, All-Any, Bool-cases, Option-cases,
}
use mcp_kubernetes_platform.Worklist.Tables.{Task, is_queued, is_done}
use mcp_kubernetes_platform.Worklist.Tasks.{lists_blocker, claim_next}
use mcp_kubernetes_platform.Worklist.Claims.{IsReady, claim_next-none_iff}

-- No task is claimed, in progress or failed.
abbrev pub IsQuiet : Task → Type 0
IsQuiet t = (is_queued t.status ≡ true) ⊎ (is_done t.status ≡ true)

-- The ids that a task lists as its blockers have a smaller rank, so no cycle is among them.
abbrev pub IsRanked : (ℕ → ℕ) → Task → Type 0
IsRanked rank t = (b : ℕ) → lists_blocker t.blockers b ≡ true → rank b < rank t.id

module _ (rank : ℕ → ℕ) (tasks : List Task) where
  -- Where the tasks of smaller rank are not queued, a queued task is ready.
  done_below :
      (n : ℕ) (t : Task) (bs : List Task)
      → IsRanked rank t
      → rank t.id ≤ n
      → All IsQuiet bs
      → All (λ b. rank b.id < n → is_queued b.status ≡ false) bs
      → All (λ b. lists_blocker t.blockers b.id ≡ true → is_done b.status ≡ true) bs
  done_below n t [] ranked le quiet below = tt
  done_below n t (b ∷ bs) ranked le quiet below = (
    λ listed. elim quiet.0 [
      | inl q ↦ absurd (cc (q, below.0 (omega (arith, le, ranked b.id listed))))
      | inr d ↦ d
    ],
    done_below n t bs ranked le quiet.1 below.1,
  )

  module _ (quiet : All IsQuiet tasks) (stuck : All (λ t. ¬ IsReady tasks t) tasks) where
    not_queued :
        (n : ℕ) (ts : List Task)
        → All (IsRanked rank) ts
        → All (λ t. ¬ IsReady tasks t) ts
        → All (λ b. rank b.id < n → is_queued b.status ≡ false) tasks
        → All (λ t. rank t.id < suc n → is_queued t.status ≡ false) ts
    not_queued n [] ranked stuck_here below = tt
    not_queued n (t ∷ ts) ranked stuck_here below = (
      λ less. elim (Bool-cases (is_queued t.status)) [
        | inl q ↦
            absurd
              (stuck_here.0 (q, done_below n t tasks ranked.0 (omega (arith, less)) quiet below))
        | inr no_more ↦ no_more
      ],
      not_queued n ts ranked.1 stuck_here.1 below,
    )

    none_below :
        (n : ℕ)
        → All (IsRanked rank) tasks
        → All (λ t. rank t.id < n → is_queued t.status ≡ false) tasks
    none_below zero ranked = All-map (λ t r less. absurd (omega (arith, less))) tasks ranked
    none_below (suc n) ranked = not_queued n tasks ranked stuck (none_below n ranked)

-- a bound on the rank of some queued task
queued_rank :
    (rank : ℕ → ℕ) (ts : List Task)
    → Any (λ t. is_queued t.status ≡ true) ts
    → (n : ℕ) × Any (λ t. (is_queued t.status ≡ true) × (rank t.id < n)) ts
queued_rank rank [] h = absurd h
queued_rank rank (t ∷ ts) (inl q) = (suc (rank t.id), inl (q, omega arith))
queued_rank rank (t ∷ ts) (inr h) = let (n, a) = queued_rank rank ts h in (n, inr a)

-- While each task of the table is queued or done and one is queued, `claim_next` hands out a task, if
-- the ids that a task lists as its blockers have a smaller rank than its own id by some measure, so
-- that no cycle is among the rows: the work cannot get stuck.
pub claim_next-returns :
    (agent_id now : String) (rank : ℕ → ℕ) (tasks : List Task)
    → All (IsRanked rank) tasks
    → All IsQuiet tasks
    → Any (λ t. is_queued t.status ≡ true) tasks
    → (t : Task) × ((claim_next agent_id now tasks).0 ≡ some t)
claim_next-returns agent_id now rank tasks ranked quiet waiting =
    elim (Option-cases (claim_next agent_id now tasks).0) [
      | inr found ↦ found
      | inl nothing ↦
          let stuck = (claim_next-none_iff agent_id now tasks).0.0 nothing in
          let (n, some_queued) = queued_rank rank tasks waiting in
          let none_queued = none_below rank tasks quiet stuck n ranked in
          absurd (All-Any (λ t not_q q. absurd (cc (not_q q.1, q.0))) tasks none_queued some_queued)
    ]
