-- ===== src/Seeds/Acyclic.antt =====
-- That `topological_sort` returns a plan when the tasks have no cycle.
use mcp_kubernetes_platform.Prelude.{
  ℕ, zero, suc, ◌≤◌, ◌<◌, ◌≡◌, refl, ap, ◌∙◌, true, List, [], ◌∷◌, All, arith, eqb, eqb→eq, inl,
  inr, Bool-cases,
}
use mcp_kubernetes_platform.Prelude.Effects.{ok}
use mcp_kubernetes_platform.Seeds.Plan.{member, PlannedTask, ids, edges, Kahn, topological_sort}
use mcp_kubernetes_platform.Seeds.Counting.{occurs, member-occurs, length-le}
use mcp_kubernetes_platform.Seeds.Edges.{edge, wait}
use mcp_kubernetes_platform.Seeds.Invariant.{length-ids}
use mcp_kubernetes_platform.Seeds.Outcome.{AreKnown, IsLast, topological_sort-cases, last-places}
use mcp_kubernetes_platform.Seeds.Order.{conclude-cases, at_most}

-- Each blocker has a smaller rank than its task.
abbrev pub IsRanked : (ℕ → ℕ) → List (ℕ × ℕ) → Type 0
IsRanked rank es = All (λ e. rank e.1 < rank e.0) es

module _ (ts : List PlannedTask) (s : Kahn) (last : IsLast ts s) (rank : ℕ → ℕ) where
  -- if the known ids of smaller rank are done, a task waits for nothing
  wait-ranked :
      (es : List (ℕ × ℕ)) (i : ℕ)
      → AreKnown (ids ts) es
      → IsRanked rank es
      → ((b : ℕ) → rank b < rank i → member b (ids ts) ≡ true → member b (ids s.ordered) ≡ true)
      → wait (ids s.ordered) i es ≡ 0
  wait-ranked [] i known ranked below = refl
  wait-ranked ((j, b) ∷ es) i known ranked below = elim (Bool-cases (eqb i j)) [
    | inl this ↦
        let e : i ≡ j = eqb→eq i j this in
        ground (
          arith,
          below b (omega (arith, ranked.0, ap rank e)) known.0,
          wait-ranked es i known.1 ranked.1 below,
        )
    | inr other ↦ ground (arith, other, wait-ranked es i known.1 ranked.1 below)
  ]

  ranked_done :
      (n i : ℕ)
      → IsRanked rank (edges ts)
      → rank i < n
      → member i (ids ts) ≡ true
      → member i (ids s.ordered) ≡ true
  ranked_done zero i ranked h there = absurd (omega (arith, h))
  ranked_done (suc n) i ranked h there =
      let free =
        wait-ranked (edges ts) i last.2 ranked
          (λ b less. ranked_done n b ranked (omega (arith, h, less))) in
      ground (
        arith,
        free,
        there,
        last-places ts s i last,
        member-occurs i (ids s.ordered),
        member-occurs i (ids ts),
      )

edge-AreKnown :
    (is : List ℕ) (es : List (ℕ × ℕ)) (i b : ℕ)
    → AreKnown is es
    → 1 ≤ edge i b es
    → member b is ≡ true
edge-AreKnown is [] i b known h = absurd (omega (arith, h))
edge-AreKnown is ((j, c) ∷ es) i b known h = elim (Bool-cases (eqb b c)) [
  | inl this ↦ let e : b ≡ c = eqb→eq b c this in ap (λ k. member k is) e ∙ known.0
  | inr other ↦ edge-AreKnown is es i b known.1 (ground (arith, h, other))
]

-- If no id stands twice, each blocker is the id of a task, and the blockers of a task have a smaller
-- rank than the task by some measure of the ids, so that no cycle is among them, then
-- `topological_sort` returns a plan.
pub topological_sort-returns :
    (ts : List PlannedTask) (rank : ℕ → ℕ)
    → ((i : ℕ) → occurs i (ids ts) ≤ 1)
    → AreKnown (ids ts) (edges ts)
    → IsRanked rank (edges ts)
    → (plan : List PlannedTask) × (topological_sort ts ≡ ok plan)
topological_sort-returns ts rank once known ranked = elim (topological_sort-cases ts) [
  | inl bad ↦
      let there = edge-AreKnown (ids ts) (edges ts) bad.3.0 bad.0 known bad.3.1 in
      absurd (cc (there, bad.2))
  | inr end ↦ elim (conclude-cases ts end.0) [
    | inl all ↦ (end.0.ordered, end.1.0 ∙ all.0)
    | inr less ↦
        let done = ids end.0.ordered in
        absurd (
          less.1 (
            omega (
              arith,
              length-ids ts,
              length-ids end.0.ordered,
              length-le done (ids ts) (at_most ts end.0 end.1),
              length-le (ids ts) done (λ i. ground (
                arith,
                once i,
                member-occurs i done,
                member-occurs i (ids ts),
                ranked_done ts end.0 end.1 rank (suc (rank i)) i ranked (omega arith),
              )),
            )))
  ]
]
