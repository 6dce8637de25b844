-- ===== src/Seeds/Progress.antt =====
-- Rows with the ids and the blockers of a sorted plan never leave the agents without work.
use mathlib.Core.Path.{subst}
use mcp_kubernetes_platform.Prelude.{
  ℕ, suc, ◌≤◌, ◌<◌, ◌≡◌, refl, sym, ap, ◌∙◌, inl, inr, true, false, String, some, List, [], ◌∷◌,
  ◌++◌, append_assoc, arith, length, eqb, eqb→eq, eqb_refl, All, Any, All-map, All-Any, Bool-cases,
  if◌then◌else◌,
}
use mcp_kubernetes_platform.Prelude.Effects.{ok}
use mcp_kubernetes_platform.Worklist.Tables.{Task, is_queued}
use mcp_kubernetes_platform.Worklist.Tasks.{lists_blocker, claim_next}
use mcp_kubernetes_platform.Worklist.Progress
use mcp_kubernetes_platform.Worklist.Progress.{IsQuiet, claim_next-returns}
use mcp_kubernetes_platform.Seeds.Plan.{member, PlannedTask, ids, topological_sort}
use mcp_kubernetes_platform.Seeds.Counting.{occurs, occurs-append, member-occurs}
use mcp_kubernetes_platform.Seeds.Invariant.{Follows}
use mcp_kubernetes_platform.Seeds.Order.{topological_sort-Follows}

-- where an id stands first
abbrev place : ℕ → List ℕ → ℕ
place i [] = 0
place i (j ∷ js) = let later = suc (place i js) in if eqb i j then 0 else later

place-member :
    (b : ℕ) (seen rest : List ℕ) → member b seen ≡ true → place b (seen ++ rest) < length seen
place-member b [] rest h = absurd (cc h)
place-member b (j ∷ seen) rest h = ground (arith, h, place-member b seen rest)

place-here :
    (i : ℕ) (seen rest : List ℕ) → member i seen ≡ false → place i (seen ++ i ∷ rest) ≡ length seen
place-here i [] rest h = ground (arith, eqb_refl i)
place-here i (j ∷ seen) rest h = ground (arith, h, place-here i seen rest)

once-new : (i : ℕ) (seen rest : List ℕ) → occurs i (seen ++ i ∷ rest) ≤ 1 → member i seen ≡ false
once-new i seen rest h =
    ground (arith, h, occurs-append i seen (i ∷ rest), member-occurs i seen, eqb_refl i)

listed-seen :
    (b : ℕ) (bs seen : List ℕ)
    → All (λ c. member c seen ≡ true) bs
    → lists_blocker bs b ≡ true
    → member b seen ≡ true
listed-seen b [] seen h listed = absurd (cc listed)
listed-seen b (c ∷ bs) seen h listed = elim (Bool-cases (eqb b c)) [
  | inl e ↦ ap (λ k. member k seen) (eqb→eq b c e) ∙ h.0
  | inr e ↦ listed-seen b bs seen h.1 (ground (arith, listed, e))
]

-- A blocker stands before the task.
abbrev Ordered : List ℕ → PlannedTask → Type 0
Ordered whole p = (b : ℕ) → lists_blocker p.blockers b ≡ true → place b whole < place p.id whole

Follows-Ordered :
    (seen whole : List ℕ) (ts : List PlannedTask)
    → whole ≡ seen ++ ids ts
    → ((i : ℕ) → occurs i whole ≤ 1)
    → Follows seen ts
    → All (Ordered whole) ts
Follows-Ordered seen whole [] e once h = tt
Follows-Ordered seen whole (t ∷ ts) e once h = (
  λ b listed.
      let new = once-new t.id seen (ids ts) (subst (λ w. occurs t.id w ≤ 1) e (once t.id)) in
      let before = place-member b seen (t.id ∷ ids ts) (listed-seen b t.blockers seen h.0 listed) in
      let here = place-here t.id seen (ids ts) new in rw e (omega (arith, before, here)),
  Follows-Ordered (seen ++ t.id ∷ []) whole ts (e ∙ sym (append_assoc seen (t.id ∷ []) (ids ts)))
      once h.1,
)

-- The row has the id and the blockers of a task of the plan.
abbrev pub IsRowOf : List PlannedTask → Task → Type 0
IsRowOf plan t = Any (λ p. (p.id ≡ t.id) × (p.blockers ≡ t.blockers)) plan

row-IsRanked :
    (plan : List PlannedTask) (t : Task)
    → All (Ordered (ids plan)) plan
    → IsRowOf plan t
    → Progress.IsRanked (λ i. place i (ids plan)) t
row-IsRanked plan t ordered row b listed =
    All-Any
      (λ p before same.
        subst (λ i. place b (ids plan) < place i (ids plan)) same.0
          (before b (ap (λ bs. lists_blocker bs b) same.1 ∙ listed)))
      plan ordered row

-- Rows with the ids and the blockers of a plan that `topological_sort` returned, for tasks with different
-- ids, cannot get stuck.
pub rows-claim_next :
    (ts plan : List PlannedTask) (tasks : List Task) (agent_id now : String)
    → topological_sort ts ≡ ok plan
    → ((i : ℕ) → occurs i (ids ts) ≤ 1)
    → All (IsRowOf plan) tasks
    → All IsQuiet tasks
    → Any (λ t. is_queued t.status ≡ true) tasks
    → (t : Task) × ((claim_next agent_id now tasks).0 ≡ some t)
rows-claim_next ts plan tasks agent_id now sorted once rows quiet waiting =
    let follows = (topological_sort-Follows ts plan 0 sorted).1 in
    let once_here =
      λ (i : ℕ). subst (λ n. n ≤ 1) (sym (topological_sort-Follows ts plan i sorted).0) (once i) in
    let ordered = Follows-Ordered [] (ids plan) plan refl once_here follows in
    claim_next-returns agent_id now (λ i. place i (ids plan)) tasks
      (All-map (λ t. row-IsRanked plan t ordered) tasks rows) quiet waiting
