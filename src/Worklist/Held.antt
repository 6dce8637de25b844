-- ===== src/Worklist/Held.antt =====
-- A task that an agent holds, over the writes of src/worklist.py to existing rows.
use mcp_kubernetes_platform.Prelude.{
  ℕ, ◌≡◌, ◌≢◌, inl, inr, refl, sym, ap, ◌∙◌, Bool, true, false, String, none, some, List, [], ◌∷◌,
  arith, eqb, eqb→eq, All, Any, Any-map, All-Any, Bool-cases, Option-cases,
}
use mcp_kubernetes_platform.Worklist.Tables.{Task, update, is_queued}
use mcp_kubernetes_platform.Worklist.Tasks.{
  claimed_for, has_id, claim_next, mark_in_progress, complete, fail,
}
use mcp_kubernetes_platform.Worklist.Claims.{claim_next-some, claim_next-none_iff}

-- Task `i` is in the table, and its row is off the queue and held by the agent.
pub record IsHeld (i : ℕ) (agent_id : String) (tasks : List Task) : Type 0 where
  pub there : Any (λ t. t.id ≡ i) tasks
  pub held :
      All (λ t. t.id ≡ i → (is_queued t.status ≡ false) × (t.claimed_by ≡ some agent_id)) tasks

-- A write that keeps ids and keeps held rows held.
module _ (i : ℕ) (agent_id : String) (test : Task → Bool) (change : Task → Task)
    (keeps_id : (t : Task) → (change t).id ≡ t.id)
    (keeps_held : (t : Task)
      → test t ≡ true
      → t.id ≡ i
      → (is_queued t.status ≡ false) × (t.claimed_by ≡ some agent_id)
      → (is_queued (change t).status ≡ false) × ((change t).claimed_by ≡ some agent_id)) where
  update-there :
      (ts : List Task) → Any (λ t. t.id ≡ i) ts → Any (λ t. t.id ≡ i) (update test change ts)
  update-there [] h = absurd h
  update-there (t ∷ ts) (inl e) = inl (ground (arith, keeps_id t))
  update-there (t ∷ ts) (inr h) = inr (update-there ts h)

  update-held :
      (ts : List Task)
      → All (λ t. t.id ≡ i → (is_queued t.status ≡ false) × (t.claimed_by ≡ some agent_id)) ts
      → All
          (λ t. t.id ≡ i → (is_queued t.status ≡ false) × (t.claimed_by ≡ some agent_id))
          (update test change ts)
  update-held [] h = tt
  update-held (t ∷ ts) h = (
    elim (Bool-cases (test t)) [
      | inl hit ↦ rw hit (λ e. let e' = sym (keeps_id t) ∙ e in keeps_held t hit e' (h.0 e'))
      | inr miss ↦ rw miss h.0
    ],
    update-held ts h.1,
  )

  update-IsHeld :
      (ts : List Task) → IsHeld i agent_id ts → IsHeld i agent_id (update test change ts)
  update-IsHeld ts h = record { there = update-there ts h.there; held = update-held ts h.held }

module _ (i : ℕ) (agent_id : String) where
  pub progress-IsHeld :
      (j : ℕ) (b : String) (ts : List Task)
      → IsHeld i agent_id ts
      → IsHeld i agent_id (mark_in_progress j b ts)
  unfolding mark_in_progress
  progress-IsHeld j b = update-IsHeld i agent_id _ _ (λ t. refl) (λ t hit e h. (refl, h.1))

  pub complete-IsHeld :
      (j : ℕ) (b url now : String) (ts : List Task)
      → IsHeld i agent_id ts
      → IsHeld i agent_id (complete j b url now ts)
  unfolding complete
  complete-IsHeld j b url now = update-IsHeld i agent_id _ _ (λ t. refl) (λ t hit e h. (refl, h.1))

  pub fail-IsHeld :
      (j : ℕ) (b reason now : String) (ts : List Task)
      → IsHeld i agent_id ts
      → IsHeld i agent_id (fail j b reason now ts)
  unfolding fail
  fail-IsHeld j b reason now = update-IsHeld i agent_id _ _ (λ t. refl) (λ t hit e h. (refl, h.1))

  -- a held task is never the one that a claim returns
  pub claim-ne :
      (b now : String) (ts : List Task) (t : Task)
      → IsHeld i agent_id ts
      → (claim_next b now ts).0 ≡ some t
      → t.id ≢ i
  claim-ne b now ts t h got = λ same.
      let c = claim_next-some b now ts t got in
      All-Any (λ a off p. not_both (off (p.1 ∙ same)).0 p.0.0) ts h.held c.2
    where
      not_both : {s : Bool} → s ≡ false → s ≡ true → ⊥
      not_both f g = cc

  claim_next-none :
      (b now : String) (ts : List Task)
      → (claim_next b now ts).0 ≡ none
      → (claim_next b now ts).1 ≡ ts
  claim_next-none b now ts nothing =
      let (empty, same) = claim_next-none_iff b now ts in ap (λ r. r.1) (same.1 (empty.0 nothing))

  pub claim-IsHeld :
      (b now : String) (ts : List Task)
      → IsHeld i agent_id ts
      → IsHeld i agent_id (claim_next b now ts).1
  claim-IsHeld b now ts h = elim (Option-cases (claim_next b now ts).0) [
    | inl nothing ↦ rw (claim_next-none b now ts nothing) h
    | inr (t, got) ↦
        let other = claim-ne b now ts t h got in
        let (_, _, _, _, rows) = claim_next-some b now ts t got in
        rw rows (
          update-IsHeld i agent_id (has_id t.id) (claimed_for b now) (λ a. refl)
            (λ a hit e _. absurd (other (sym (eqb→eq a.id t.id hit) ∙ e))) ts h)
  ]

  -- after a claim that returns the task, the agent holds it
  pub claimed-IsHeld :
      (now : String) (ts : List Task) (t : Task)
      → (claim_next agent_id now ts).0 ≡ some t
      → t.id ≡ i
      → IsHeld i agent_id (claim_next agent_id now ts).1
  claimed-IsHeld now ts t got same =
      let (_, _, ready, _, rows) = claim_next-some agent_id now ts t got in
      rw (rows, same)
        (record {
          there = update-Any ts (Any-map (λ a p. p.1 ∙ same) ts ready);
          held = update-claimed ts;
        })
    where
      update-Any :
          (ts : List Task)
          → Any (λ t. t.id ≡ i) ts
          → Any (λ t. t.id ≡ i) (update (has_id i) (claimed_for agent_id now) ts)
      update-Any =
          update-there i agent_id (has_id i) (claimed_for agent_id now) (λ a. refl)
            (λ a hit e _. (refl, refl))

      update-claimed :
          (ts : List Task)
          → All
              (λ t. t.id ≡ i → (is_queued t.status ≡ false) × (t.claimed_by ≡ some agent_id))
              (update (has_id i) (claimed_for agent_id now) ts)
      update-claimed [] = tt
      update-claimed (a ∷ ts) = (
        elim (Bool-cases (eqb a.id i)) [
          | inl hit ↦ rw hit (λ e. (refl, refl))
          | inr miss ↦ rw miss (λ e. absurd (ground arith))
        ],
        update-claimed ts,
      )
