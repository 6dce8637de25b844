-- ===== src/Worklist/Claims.antt =====
-- What `claim_next` hands out, and to whom.
use mcp_kubernetes_platform.Prelude.{
  ℕ, ◌≤◌, ◌≡◌, ◌↔◌, inl, inr, refl, sym, ap, ◌∙◌, Bool, true, false, String, Option, none, some,
  List, [], ◌∷◌, arith, any, eqb, eqb→eq, All, Any, All-map, Any-map, Bool-cases, Option-cases,
}
use mathlib.Core.Option.{some-injective}
use mcp_kubernetes_platform.Worklist.Tables.{claimed, Task, update, is_queued, is_done}
use mcp_kubernetes_platform.Worklist.Tasks.{
  lists_blocker, blocks, claimable, least_id, claimed_for, has_id, find, row_to_task, claim_id,
  claim_next,
}

-- Queued, and each row that it lists as a blocker is done.
abbrev pub IsReady : List Task → Task → Type 0
IsReady tasks t =
    (is_queued t.status ≡ true)
    × All (λ b. lists_blocker t.blockers b.id ≡ true → is_done b.status ≡ true) tasks

unblocked :
    (t : Task) (tasks : List Task)
    → any (blocks t) tasks ≡ false
    → All (λ b. lists_blocker t.blockers b.id ≡ true → is_done b.status ≡ true) tasks
unfolding blocks
unblocked t [] h = tt
unblocked t (b ∷ tasks) h = (λ listed. ground arith, unblocked t tasks (ground arith))

unblocked_conv :
    (t : Task) (tasks : List Task)
    → All (λ b. lists_blocker t.blockers b.id ≡ true → is_done b.status ≡ true) tasks
    → any (blocks t) tasks ≡ false
unfolding blocks
unblocked_conv t [] h = refl
unblocked_conv t (b ∷ tasks) h = ground (arith, h.0, unblocked_conv t tasks h.1)

pub claimable-IsReady_iff :
    (tasks : List Task) (t : Task) → (claimable tasks t ≡ true) ↔ IsReady tasks t
unfolding claimable
claimable-IsReady_iff tasks t = (
  λ h. (ground arith, unblocked t tasks (ground arith)),
  λ h. rw (h.0, unblocked_conv t tasks h.1) refl,
)

no_such_none : {A : Type 0} (a : A) → ◌≡◌ {A = Option A} (some a) none → ⊥
no_such_none a h = cc

module _ (test : Task → Bool) where
  pub least_id-none : (ts : List Task) → least_id test ts ≡ none → All (λ t. test t ≡ false) ts
  unfolding least_id
  least_id-none [] h = tt
  least_id-none (t ∷ ts) h = (ground arith, least_id-none ts (ground arith))

  least_id-none_conv : (ts : List Task) → All (λ t. test t ≡ false) ts → least_id test ts ≡ none
  unfolding least_id
  least_id-none_conv [] h = refl
  least_id-none_conv (t ∷ ts) h = rw h.0 (least_id-none_conv ts h.1)

  least_id-le :
      (ts : List Task) (i : ℕ) → least_id test ts ≡ some i → All (λ t. test t ≡ true → i ≤ t.id) ts
  unfolding least_id
  least_id-le [] i h = tt
  least_id-le (t ∷ ts) i h = elim (Option-cases (least_id test ts)) [
    | inl nothing ↦ (ground arith, All-map (λ a no p. cc) ts (least_id-none ts nothing))
    | inr (j, e) ↦ (ground arith, All-map (λ a le p. ground (arith, le p)) ts (least_id-le ts j e))
  ]

  pub least_id-Any :
      (ts : List Task) (i : ℕ)
      → least_id test ts ≡ some i
      → Any (λ t. (test t ≡ true) × (t.id ≡ i)) ts
  unfolding least_id
  least_id-Any [] i h = cc
  least_id-Any (t ∷ ts) i h = elim (Option-cases (least_id test ts)) [
    | inl nothing ↦ inl (ground arith)
    | inr (j, e) ↦ elim (Bool-cases (eqb i j)) [
      | inl same ↦
          inr (Any-map (λ a p. (p.0, p.1 ∙ sym (eqb→eq i j same))) ts (least_id-Any ts j e))
      | inr other ↦ inl (ground arith)
    ]
  ]

module _ (i : ℕ) (agent_id now : String) where
  find-update :
      (ts : List Task)
      → Any (λ t. t.id ≡ i) ts
      → (u : Task) × (u.id ≡ i)
        × (find (has_id i) (update (has_id i) (claimed_for agent_id now) ts)
            ≡ some (claimed_for agent_id now u))
  unfolding find
  find-update [] h = absurd h
  find-update (t ∷ ts) (inl e) = (t, e, rw (eqb_eq e) (rw (eqb_eq e) refl))
    where
      eqb_eq : t.id ≡ i → eqb t.id i ≡ true
      eqb_eq e = ground arith
  find-update (t ∷ ts) (inr h) = elim (Bool-cases (eqb t.id i)) [
    | inl here ↦ (t, eqb→eq _ _ here, rw (here, here) refl)
    | inr there ↦ let (u, e, found) = find-update ts h in (u, e, rw (there, there) found)
  ]

module _ (agent_id now : String) (tasks : List Task) where
  claim_next-nothing :
      least_id (claimable tasks) tasks ≡ none → claim_next agent_id now tasks ≡ (none, tasks)
  unfolding claim_next
  claim_next-nothing e = ap (λ o. claim_id agent_id now o tasks) e

  claim_next-row :
      (i : ℕ)
      → least_id (claimable tasks) tasks ≡ some i
      → (u : Task) × (u.id ≡ i)
        × (claim_next agent_id now tasks ≡ (
          some (row_to_task (claimed_for agent_id now u)),
          update (has_id i) (claimed_for agent_id now) tasks,
        ))
  unfolding claim_next
  claim_next-row i e =
      let (u, named, found) =
        find-update i agent_id now tasks
          (Any-map (λ t p. p.1) tasks (least_id-Any (claimable tasks) tasks i e)) in
      (u, named, ap (λ o. claim_id agent_id now o tasks) e ∙ rw found refl)

  not-IsReady : (t : Task) → claimable tasks t ≡ false → ¬ IsReady tasks t
  not-IsReady t h ready = cc ((claimable-IsReady_iff tasks t).1 ready)

  ready-false : (t : Task) → (¬ IsReady tasks t) → claimable tasks t ≡ false
  ready-false t h = elim (Bool-cases (claimable tasks t)) [
    | inl good ↦ absurd (h ((claimable-IsReady_iff tasks t).0 good))
    | inr bad ↦ bad
  ]

  -- `claim_next` gives None exactly when no row is ready: queued, and with each row that it lists
  -- as a blocker done; it gives None with the rows as they were in the same cases.
  pub claim_next-none_iff :
      ((claim_next agent_id now tasks).0 ≡ none ↔ All (λ t. ¬ IsReady tasks t) tasks)
      × (claim_next agent_id now tasks ≡ (none, tasks) ↔ All (λ t. ¬ IsReady tasks t) tasks)
  claim_next-none_iff = elim (Option-cases (least_id (claimable tasks) tasks)) [
    | inl e ↦
        let none_here = claim_next-nothing e in
        let all = All-map not-IsReady tasks (least_id-none (claimable tasks) tasks e) in
        ((λ _. all, λ _. ap (λ r. r.0) none_here), (λ _. all, λ _. none_here))
    | inr (i, e) ↦
        let (u, named, row) = claim_next-row i e in
        let never = λ (h : (claim_next agent_id now tasks).0 ≡ none).
          no_such_none (row_to_task (claimed_for agent_id now u)) (sym (ap (λ r. r.0) row) ∙ h) in
        let some_ready = λ (all : All (λ t. ¬ IsReady tasks t) tasks).
          no_such_none i
            (sym e ∙ least_id-none_conv (claimable tasks) tasks (All-map ready-false tasks all)) in
        (
          (λ h. absurd (never h), λ all. absurd (some_ready all)),
          (λ h. absurd (never (ap (λ r. r.0) h)), λ all. absurd (some_ready all)),
        )
  ]

  -- A task that `claim_next` returns is claimed by the caller; a row with its id was ready, no
  -- ready row has a smaller id, and only the rows with that id are written.
  pub claim_next-some :
      (t : Task)
      → (claim_next agent_id now tasks).0 ≡ some t
      → (t.status ≡ claimed)
        × (t.claimed_by ≡ some agent_id)
        × Any (λ u. IsReady tasks u × (u.id ≡ t.id)) tasks
        × All (λ u. IsReady tasks u → t.id ≤ u.id) tasks
        × ((claim_next agent_id now tasks).1
            ≡ update (has_id t.id) (claimed_for agent_id now) tasks)
  claim_next-some t h = elim (Option-cases (least_id (claimable tasks) tasks)) [
    | inl e ↦ absurd (no_such_none t (sym h ∙ ap (λ r. r.0) (claim_next-nothing e)))
    | inr (i, e) ↦
        let (u, named, row) = claim_next-row i e in
        let q : t ≡ row_to_task (claimed_for agent_id now u) =
          some-injective _ _ (sym h ∙ ap (λ r. r.0) row) in
        let same : t.id ≡ i = ap (λ t. t.id) q ∙ named in
        (
          ap (λ t. t.status) q,
          ap (λ t. t.claimed_by) q,
          Any-map (λ a p. ((claimable-IsReady_iff tasks a).0 p.0, p.1 ∙ sym same)) tasks
              (least_id-Any (claimable tasks) tasks i e),
          All-map (λ a le ready. rw same (le ((claimable-IsReady_iff tasks a).1 ready))) tasks
              (least_id-le (claimable tasks) tasks i e),
          ap (λ r. r.1) row
              ∙ ap (λ j. update (has_id j) (claimed_for agent_id now) tasks) (sym same),
        )
  ]
