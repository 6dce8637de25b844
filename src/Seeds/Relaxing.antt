-- ===== src/Seeds/Relaxing.antt =====
-- The inner loop: which degrees it leaves, and which ids it queues.
use mcp_kubernetes_platform.Prelude.{
  ℕ, ◌+◌, ◌-◌, ◌≤◌, ◌≡◌, refl, ap, ◌&&◌, List, [], ◌∷◌, arith, eqb, ltb, inl, inr, Bool-cases,
  eqb→eq, eqb_refl, if◌then◌else◌,
}
use mcp_kubernetes_platform.Seeds.Plan.{Kahn, relax_one, relax}
use mcp_kubernetes_platform.Seeds.Counting.{occurs, occurs-append}

pub relax-ordered : (ds : List ℕ) (s : Kahn) → (relax ds s).ordered ≡ s.ordered
unfolding relax relax_one
relax-ordered [] s = refl
relax-ordered (d ∷ ds) s = relax-ordered ds (relax_one d s)

relax_one-degree :
    (d i : ℕ) (s : Kahn)
    → (relax_one d s).in_degree i ≡ (if eqb i d then s.in_degree i - 1 else s.in_degree i)
unfolding relax_one
relax_one-degree d i s = elim (Bool-cases (eqb i d)) [
  | inl same ↦ let e : i ≡ d = eqb→eq i d same in rw e (rw (eqb_refl d) refl)
  | inr other ↦ ground (arith, other)
]

pub relax-degree :
    (ds : List ℕ) (s : Kahn) (i : ℕ) → (relax ds s).in_degree i ≡ s.in_degree i - occurs i ds
unfolding relax
relax-degree [] s i = omega arith
relax-degree (d ∷ ds) s i =
    ground (arith, relax-degree ds (relax_one d s) i, relax_one-degree d i s)

relax_one-queue :
    (d i : ℕ) (s : Kahn)
    → occurs i (relax_one d s).queue
      ≡ occurs i s.queue + (if eqb i d && eqb (s.in_degree i - 1) 0 then 1 else 0)
unfolding relax_one
relax_one-queue d i s = elim (Bool-cases (eqb i d)) [
  | inl same ↦
      let e : i ≡ d = eqb→eq i d same in
      ground (arith, same, e, ap s.in_degree e, occurs-append i s.queue (d ∷ []))
  | inr other ↦ ground (arith, other, occurs-append i s.queue (d ∷ []))
]

-- If each degree counts at least the decrements to come, an id is queued once, when its degree
-- comes to 0.
pub relax-queue :
    (ds : List ℕ) (s : Kahn)
    → ((i : ℕ) → occurs i ds ≤ s.in_degree i)
    → (i : ℕ)
    → occurs i (relax ds s).queue
      ≡ occurs i s.queue
        + (if ltb 0 (occurs i ds) && eqb (s.in_degree i) (occurs i ds) then 1 else 0)
unfolding relax
relax-queue [] s h i = ground arith
relax-queue (d ∷ ds) s h i = ground (
  arith,
  h i,
  relax_one-queue d i s,
  relax_one-degree d i s,
  relax-queue ds (relax_one d s) (λ j. ground (arith, h j, relax_one-degree d j s)) i,
)
