-- ===== src/Worklist/Traces.antt =====
-- Many agents on one worklist: the methods hold the lock and run one at a time, so what they do
-- together is a sequence of operations, in any order.
use mcp_kubernetes_platform.Prelude.{
  ℕ, ◌<◌, ◌≡◌, ◌≢◌, inl, inr, String, Option, none, some, List, [], ◌∷◌, arith, any, All, All-Any,
  All-append, Any-append_left, Bool-cases, Option-cases,
}
use mcp_kubernetes_platform.Worklist.Tables.{Task}
use mcp_kubernetes_platform.Worklist.Tasks.{
  claim_next, mark_in_progress, complete, fail, Seed, same_key, insert_or_ignore, seed,
}
use mcp_kubernetes_platform.Worklist.Held.{
  IsHeld, progress-IsHeld, complete-IsHeld, fail-IsHeld, claim-ne, claim-IsHeld, claimed-IsHeld,
}

-- One call of a method, with the times that it reads.
pub data Operation : Type 0 where
  claim : String → String → Operation
  progress : ℕ → String → Operation
  finish : ℕ → String → String → String → Operation
  give_up : ℕ → String → String → String → Operation
  load : List Seed → Operation

module _ (alloc : List Task → ℕ) where
  -- the id handed out, if any, and the rows after the call
  unfoldable pub step : Operation → List Task → Option ℕ × List Task
  step (claim agent_id now) tasks =
      let (got, after) = claim_next agent_id now tasks in
      (elim got [ none ↦ none | some t ↦ some t.id ], after)
  step (progress i agent_id) tasks = (none, mark_in_progress i agent_id tasks)
  step (finish i agent_id pr_url now) tasks = (none, complete i agent_id pr_url now tasks)
  step (give_up i agent_id reason now) tasks = (none, fail i agent_id reason now tasks)
  step (load seeds) tasks = (none, seed alloc seeds tasks)

  note : Option ℕ → List ℕ → List ℕ
  note none ids = ids
  note (some i) ids = i ∷ ids

  -- the ids handed out over a sequence of calls, and the rows at its end
  unfoldable pub run : List Operation → List Task → List ℕ × List Task
  unfolding note
  run [] tasks = ([], tasks)
  run (o ∷ rest) tasks =
      let (got, after) = step o tasks in let (ids, final) = run rest after in (note got ids, final)

module _ (alloc : List Task → ℕ) (fresh : (ts : List Task) → All (λ t. t.id < alloc ts) ts) (i : ℕ)
    (agent_id : String) where
  insert-IsHeld :
      (s : Seed) (ts : List Task)
      → IsHeld i agent_id ts
      → IsHeld i agent_id (insert_or_ignore alloc s ts)
  unfolding insert_or_ignore
  insert-IsHeld s ts h = elim (Bool-cases (any (same_key s) ts)) [
    | inl old ↦ rw old h
    | inr new ↦ rw new (record {
      there = Any-append_left _ ts _ h.there;
      held =
          All-append _ ts _ h.held
            (λ e. absurd (All-Any (λ a lt here. too_high lt here e) ts (fresh ts) h.there), tt);
    })
  ]
    where
      too_high : {a n : ℕ} → a < n → a ≡ i → n ≡ i → ⊥
      too_high lt here e = omega arith

  seed-IsHeld :
      (ss : List Seed) (ts : List Task)
      → IsHeld i agent_id ts
      → IsHeld i agent_id (seed alloc ss ts)
  unfolding seed
  seed-IsHeld [] ts h = h
  seed-IsHeld (s ∷ ss) ts h = seed-IsHeld ss (insert_or_ignore alloc s ts) (insert-IsHeld s ts h)

  step-IsHeld :
      (o : Operation) (ts : List Task)
      → IsHeld i agent_id ts
      → IsHeld i agent_id (step alloc o ts).1
  unfolding step
  step-IsHeld (claim b now) ts h = claim-IsHeld i agent_id b now ts h
  step-IsHeld (progress j b) ts h = progress-IsHeld i agent_id j b ts h
  step-IsHeld (finish j b url now) ts h = complete-IsHeld i agent_id j b url now ts h
  step-IsHeld (give_up j b reason now) ts h = fail-IsHeld i agent_id j b reason now ts h
  step-IsHeld (load ss) ts h = seed-IsHeld ss ts h

  step-ne :
      (o : Operation) (ts : List Task) (j : ℕ)
      → IsHeld i agent_id ts
      → (step alloc o ts).0 ≡ some j
      → j ≢ i
  unfolding step
  step-ne (claim b now) ts j h got = elim (Option-cases (claim_next b now ts).0) [
    | inl nothing ↦ cc
    | inr (t, e) ↦ λ same. claim-ne i agent_id b now ts t h e (cc)
  ]
  step-ne (progress k b) ts j h got = cc
  step-ne (finish k b url now) ts j h got = cc
  step-ne (give_up k b reason now) ts j h got = cc
  step-ne (load ss) ts j h got = cc

  run-IsHeld :
      (os : List Operation) (ts : List Task)
      → IsHeld i agent_id ts
      → All (λ j. j ≢ i) (run alloc os ts).0 × IsHeld i agent_id (run alloc os ts).1
  unfolding run
  run-IsHeld [] ts h = (tt, h)
  run-IsHeld (o ∷ os) ts h =
      let (rest, final) = run-IsHeld os (step alloc o ts).1 (step-IsHeld o ts h) in
      elim (Option-cases (step alloc o ts).0) [
        | inl nothing ↦ (rw nothing rest, final)
        | inr (j, e) ↦ (rw e (step-ne o ts j h e, rest), final)
      ]

  -- Once `claim_next` has given a task to an agent, no sequence of claims, of progress, completion
  -- and failure by anyone, and of seeding ever hands that task out again, and its row stays off
  -- the queue and held by that agent.
  pub claim_once :
      (now : String) (ts : List Task) (t : Task) (os : List Operation)
      → (claim_next agent_id now ts).0 ≡ some t
      → t.id ≡ i
      → All (λ j. j ≢ i) (run alloc os (claim_next agent_id now ts).1).0
        × IsHeld i agent_id (run alloc os (claim_next agent_id now ts).1).1
  claim_once now ts t os got same =
      run-IsHeld os (claim_next agent_id now ts).1 (claimed-IsHeld i agent_id now ts t got same)
