-- ===== src/Seeds/Blockers.antt =====
-- Which task the dict has for an id, and that a task which waits for nothing has its blockers done.
use mcp_kubernetes_platform.Prelude.{
  ℕ, ◌+◌, ◌≤◌, ◌≡◌, refl, sym, true, false, some, List, [], ◌∷◌, ◌++◌, All, arith, eqb, inl, inr,
  Bool-cases, Option-cases, eqb→eq, eqb_refl,
}
use mathlib.Core.Path.{subst}
use mathlib.Core.Option.{some-injective}
use mcp_kubernetes_platform.Seeds.Plan.{member, PlannedTask, ids, task_of, edges_of, edges}
use mcp_kubernetes_platform.Seeds.Counting.{occurs}
use mcp_kubernetes_platform.Seeds.Edges.{edge, wait, wait-append, wait-edges_of}

pub task_of-id :
    (i : ℕ) (ts : List PlannedTask) (t : PlannedTask) → task_of i ts ≡ some t → t.id ≡ i
unfolding task_of
task_of-id i [] t h = absurd (cc h)
task_of-id i (u ∷ ts) t h = elim (Option-cases (task_of i ts)) [
  | inr later ↦ task_of-id i ts t (cc (h, later.1))
  | inl nothing ↦ elim (Bool-cases (eqb u.id i)) [
    | inl this ↦ cc (h, nothing, this, eqb→eq u.id i this)
    | inr other ↦ absurd (cc (h, nothing, other))
  ]
]

-- an id of the tasks has a task
pub task_of-known :
    (i : ℕ) (ts : List PlannedTask)
    → 1 ≤ occurs i (ids ts)
    → (t : PlannedTask) × (task_of i ts ≡ some t)
unfolding task_of
task_of-known i [] h = absurd (omega (arith, h))
task_of-known i (t ∷ ts) h = elim (Option-cases (task_of i ts)) [
  | inr later ↦ (later.0, rw later.1 refl)
  | inl nothing ↦ elim (Bool-cases (eqb i t.id)) [
    | inl this ↦ (t, rw nothing (rw (eqb→eq i t.id this) (rw (eqb_refl t.id) refl)))
    | inr other ↦
        let later = task_of-known i ts (ground (arith, h, other)) in absurd (cc (nothing, later.1))
  ]
]

edge-append : (i b : ℕ) (es fs : List (ℕ × ℕ)) → edge i b (es ++ fs) ≡ edge i b es + edge i b fs
edge-append i b [] fs = omega arith
edge-append i b ((j, c) ∷ es) fs = ground (arith, edge-append i b es fs)

edge-edges_of : (i b j : ℕ) (bs : List ℕ) → eqb i j ≡ false → edge i b (edges_of j bs) ≡ 0
edge-edges_of i b j [] h = refl
edge-edges_of i b j (c ∷ bs) h = ground (arith, h, edge-edges_of i b j bs h)

-- the first of the pairs is an id of the tasks
pub edge-known : (i b : ℕ) (ts : List PlannedTask) → 1 ≤ edge i b (edges ts) → 1 ≤ occurs i (ids ts)
unfolding edges
edge-known i b [] h = absurd (omega (arith, h))
edge-known i b (t ∷ ts) h = elim (Bool-cases (eqb i t.id)) [
  | inl this ↦ ground (arith, this)
  | inr other ↦ ground (
    arith,
    other,
    h,
    edge-append i b (edges_of t.id t.blockers) (edges ts),
    edge-edges_of i b t.id t.blockers other,
    edge-known i b ts,
  )
]

-- A task that waits for no blocker has all of them done.
pub wait-blockers :
    (i : ℕ) (done : List ℕ) (ts : List PlannedTask) (t : PlannedTask)
    → task_of i ts ≡ some t
    → wait done i (edges ts) ≡ 0
    → All (λ b. member b done ≡ true) t.blockers
unfolding task_of edges
wait-blockers i done [] t h w = absurd (cc h)
wait-blockers i done (u ∷ ts) t h w =
    let split = wait-append (edges_of u.id u.blockers) (edges ts) done i in
    elim (Option-cases (task_of i ts)) [
      | inr later ↦ wait-blockers i done ts t (cc (h, later.1)) (omega (arith, w, split))
      | inl nothing ↦ elim (Bool-cases (eqb u.id i)) [
        | inl this ↦
            let same : u ≡ t = some-injective u t (cc (h, nothing, this)) in
            let e : u.id ≡ i = eqb→eq u.id i this in
            subst (λ v. All (λ b. member b done ≡ true) v.blockers) same
              (wait-edges_of u.blockers done u.id (
                subst (λ k. wait done k (edges_of u.id u.blockers) ≡ 0) (sym e)
                  (omega (arith, w, split))))
        | inr other ↦ absurd (cc (h, nothing, other))
      ]
    ]
