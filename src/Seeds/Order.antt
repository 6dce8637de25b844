-- ===== src/Seeds/Order.antt =====
-- The order that `topological_sort` returns, and its errors.
use mathlib.Core.Path.{subst}
use mcp_kubernetes_platform.Prelude.{
  ℕ, ◌≤◌, ◌≡◌, ◌≢◌, ◌⊎◌, refl, sym, ap, ◌∙◌, true, false, not, ◌&&◌, some, List, [], ◌∷◌, All,
  arith, eqb, eqb_refl, eqb→eq, ltb, length, keep, inl, inr, Bool-cases,
}
use mcp_kubernetes_platform.Prelude.Effects.{ok, raised}
use mcp_kubernetes_platform.Seeds.Plan.{
  member, PlannedTask, SortError, key_error, cycle_error, ids, edges, Kahn, conclude,
  topological_sort,
}
use mcp_kubernetes_platform.Seeds.Counting.{
  length-le, occurs, occurs-keep, member-occurs, occurs-full,
}
use mcp_kubernetes_platform.Seeds.Edges.{edge, wait}
use mcp_kubernetes_platform.Seeds.Invariant.{Follows, IsTaskOf, length-ids}
use mcp_kubernetes_platform.Seeds.Outcome.{AreKnown, IsLast, topological_sort-cases, last-places}

-- the ids that the ValueError names
abbrev pub left : Kahn → List PlannedTask → List ℕ
left s ts = keep (λ i. not (member i (ids s.ordered))) (ids ts)

-- `conclude` on the last state: all tasks in order, or the ids that are left.
pub conclude-cases :
    (ts : List PlannedTask) (s : Kahn)
    → ((conclude ts (some s) ≡ ok s.ordered) × (length s.ordered ≡ length ts))
      ⊎ ((conclude ts (some s) ≡ raised (cycle_error (left s ts))) × (length s.ordered ≢ length ts))
unfolding conclude
conclude-cases ts s = elim (Bool-cases (eqb (length s.ordered) (length ts))) [
  | inl all ↦ inl (rw all refl, eqb→eq (length s.ordered) (length ts) all)
  | inr less ↦ inr (rw less refl, λ e. absurd (ground (arith, less, e, eqb_refl (length ts))))
]

module _ (ts : List PlannedTask) (s : Kahn) (last : IsLast ts s) where
  pub at_most : (i : ℕ) → occurs i (ids s.ordered) ≤ occurs i (ids ts)
  at_most i = ground (arith, last-places ts s i last)

  all_done : (i : ℕ) → length s.ordered ≡ length ts → occurs i (ids s.ordered) ≡ occurs i (ids ts)
  all_done i same = sym (
      occurs-full (ids s.ordered) (ids ts) at_most
        (omega (arith, same, length-ids s.ordered, length-ids ts)) i)

  -- an id that waits has a blocker that is not done
  waiting_for :
      (es : List (ℕ × ℕ)) (i : ℕ)
      → AreKnown (ids ts) es
      → 1 ≤ wait (ids s.ordered) i es
      → (b : ℕ) × (1 ≤ edge i b es)
        × (member b (ids s.ordered) ≡ false)
        × (member b (ids ts) ≡ true)
  waiting_for [] i known h = absurd (omega (arith, h))
  waiting_for ((j, b) ∷ es) i known h =
      elim (Bool-cases (eqb i j && not (member b (ids s.ordered)))) [
        | inl this ↦ (b, ground (arith, this, eqb_refl b), ground (arith, this), known.0)
        | inr other ↦
            let rest = waiting_for es i known.1 (ground (arith, h, other)) in
            (rest.0, ground (arith, rest.1), rest.2, rest.3)
      ]

-- When `topological_sort` returns a plan, the plan has each id as often as the tasks have it, each
-- task of the plan is the one that the dict has for its id, and each blocker of a task is the id of
-- an earlier task of the plan.
pub topological_sort-Follows :
    (ts plan : List PlannedTask) (i : ℕ)
    → topological_sort ts ≡ ok plan
    → (occurs i (ids plan) ≡ occurs i (ids ts)) × Follows [] plan × All (IsTaskOf ts) plan
topological_sort-Follows ts plan i h = elim (topological_sort-cases ts) [
  | inl bad ↦ absurd (cc (h, bad.1))
  | inr end ↦ elim (conclude-cases ts end.0) [
    | inr less ↦ absurd (cc (h, end.1.0, less.0))
    | inl all ↦
        let e : end.0.ordered ≡ plan = cc (h, end.1.0, all.0) in
        subst (λ p. (occurs i (ids p) ≡ occurs i (ids ts)) × Follows [] p × All (IsTaskOf ts) p) e
          (all_done ts end.0 end.1 i all.1, end.1.1.follows, end.1.1.tasks_of)
  ]
]

module _ (ts : List PlannedTask) (s : Kahn) (last : IsLast ts s) where
  -- an id that is left has a blocker that is left
  left_waits :
      (i : ℕ)
      → member i (left s ts) ≡ true
      → (member i (ids ts) ≡ true)
        × ((b : ℕ) × (1 ≤ edge i b (edges ts)) × (member b (left s ts) ≡ true))
  left_waits i named =
      let in_left = λ (j : ℕ).
        member-occurs j (left s ts)
        ∙ ap (ltb 0) (occurs-keep (λ k. not (member k (ids s.ordered))) j (ids ts)) in
      let blocker = waiting_for ts s last (edges ts) i last.2 (
        ground
          (arith, named, in_left i, member-occurs i (ids s.ordered), last-places ts s i last)) in
      (
        ground (arith, named, in_left i, member-occurs i (ids ts)),
        (
          blocker.0,
          blocker.1,
          ground (arith, in_left blocker.0, member-occurs blocker.0 (ids ts), blocker.2, blocker.3),
        ),
      )

module _ (ts : List PlannedTask) (s : Kahn) (last : IsLast ts s) where
  -- if nothing is left, each id of a task is done
  nothing_left :
      (i : ℕ) → left s ts ≡ [] → member i (ids ts) ≡ true → member i (ids s.ordered) ≡ true
  nothing_left i empty there =
      let kept = occurs-keep (λ k. not (member k (ids s.ordered))) i (ids ts) in
      let none_kept = ap (occurs i) empty in
      ground (arith, there, kept, none_kept, member-occurs i (ids ts))

  -- With no id twice, tasks that are not all in order leave an id.
  some_left : ((i : ℕ) → occurs i (ids ts) ≤ 1) → length s.ordered ≢ length ts → left s ts ≢ []
  some_left once differ empty =
      let done = ids s.ordered in
      differ (
        omega (
          arith,
          length-ids ts,
          length-ids s.ordered,
          length-le done (ids ts) (at_most ts s last),
          length-le (ids ts) done (λ i. ground (
            arith,
            once i,
            member-occurs i done,
            member-occurs i (ids ts),
            nothing_left i empty,
          )),
        ))

-- When `topological_sort` raises its ValueError on tasks in which no id stands twice, it names at
-- least one id, and each id that it names is that of a task and has a blocker which it names too:
-- so the ids that it names hold a cycle.
pub topological_sort-cycle_error :
    (ts : List PlannedTask) (c : List ℕ)
    → ((i : ℕ) → occurs i (ids ts) ≤ 1)
    → topological_sort ts ≡ raised (cycle_error c)
    → (c ≢ [])
      × ((i : ℕ)
          → member i c ≡ true
          → (member i (ids ts) ≡ true)
            × ((b : ℕ) × (1 ≤ edge i b (edges ts)) × (member b c ≡ true)))
topological_sort-cycle_error ts c once h = elim (topological_sort-cases ts) [
  | inl bad ↦ absurd (cc (h, bad.1))
  | inr end ↦ elim (conclude-cases ts end.0) [
    | inl all ↦ absurd (cc (h, end.1.0, all.0))
    | inr less ↦
        let e : left end.0 ts ≡ c = cc (h, end.1.0, less.0) in
        subst
          (λ d.
            (d ≢ [])
            × ((i : ℕ)
                → member i d ≡ true
                → (member i (ids ts) ≡ true)
                  × ((b : ℕ) × (1 ≤ edge i b (edges ts)) × (member b d ≡ true))))
          e (some_left ts end.0 end.1 once less.1, left_waits ts end.0 end.1)
  ]
]

-- When `topological_sort` raises, the error is a KeyError for a blocker of a task that is the id of
-- no task, or the ValueError: the loop ends.
pub topological_sort-raised :
    (ts : List PlannedTask) (e : SortError)
    → topological_sort ts ≡ raised e
    → ((b : ℕ) × (e ≡ key_error b)
        × (member b (ids ts) ≡ false)
        × ((i : ℕ) × (1 ≤ edge i b (edges ts))))
      ⊎ ((c : List ℕ) × (e ≡ cycle_error c))
topological_sort-raised ts e h = elim (topological_sort-cases ts) [
  | inl bad ↦ inl (bad.0, cc (h, bad.1), bad.2, bad.3)
  | inr end ↦ elim (conclude-cases ts end.0) [
    | inl all ↦ absurd (cc (h, end.1.0, all.0))
    | inr less ↦ inr (left end.0 ts, cc (h, end.1.0, less.0))
  ]
]
