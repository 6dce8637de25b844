-- ===== src/Worklist/Phases.antt =====
-- The life of an audit run.
use mcp_kubernetes_platform.Prelude.{
  ℕ, zero, suc, ◌+◌, ◌≡◌, inl, inr, refl, sym, ap, ◌∙◌, true, String, [], ◌∷◌, arith, leb,
  if◌then◌else◌, Bool-cases, ◌==◌,
}
use mcp_kubernetes_platform.Prelude.Effects.{Result, ok, raised}
use mcp_kubernetes_platform.Worklist.Tables.{Phase, review, escalated, AuditRun, update}
use mcp_kubernetes_platform.Worklist.Runs.{
  RunError, Runs, has_label, row, should_escalate, max_iterations, count_up, mark_escalated,
  escalate, increment_iteration,
}

abbrev after : (AuditRun → AuditRun) → Result RunError AuditRun → Result RunError AuditRun
after change (ok r) = ok (change r)
after change (raised e) = raised e

found :
    (label : String) (x : AuditRun) (rs : Runs) (r : AuditRun)
    → has_label label x ≡ true
    → row label (x ∷ rs) ≡ ok r
    → ◌≡◌ {A = Result RunError AuditRun} (ok x) (ok r)
unfolding row
found label x rs r here h = let first : row label (x ∷ rs) ≡ ok x = rw here refl in sym first ∙ h

module _ (label : String) (change : AuditRun → AuditRun)
    (keeps : (r : AuditRun) → (change r).run_label ≡ r.run_label) where
  row-update :
      (rs : Runs) (r : AuditRun)
      → row label rs ≡ ok r
      → row label (update (has_label label) change rs) ≡ ok (change r)
  unfolding row
  row-update [] r h = cc
  row-update (x ∷ rs) r h = elim (Bool-cases (x.run_label == label)) [
    | inl here ↦
        let new : has_label label (change x) ≡ true = ap (λ l. l == label) (keeps x) ∙ here in
        rw (here, new) (ap (after change) (found label x rs r here h))
    | inr there ↦ rw (there, there) (row-update rs r (ground arith))
  ]

-- What one more iteration makes of a run: counted, under review, and at the limit escalated.
abbrev pub next_phase : ℕ → Phase
next_phase n = if leb max_iterations n then escalated else review

increment_row :
    (now later label : String) (rs : Runs) (r : AuditRun)
    → row label rs ≡ ok r
    → (r' : AuditRun) × ((increment_iteration now later label rs).0 ≡ ok r')
      × (row label (increment_iteration now later label rs).1 ≡ ok r')
      × (r'.iteration_count ≡ r.iteration_count + 1)
      × (r'.phase ≡ next_phase (r.iteration_count + 1))
unfolding increment_iteration escalate should_escalate
increment_row now later label rs r h =
    let counted = row-update label (count_up now) (λ r. refl) rs r h in
    let stop = mark_escalated later "iteration_count >= MAX_ITERATIONS" in
    let marked = row-update label stop (λ r. refl) _ _ counted in
    elim (Bool-cases (leb max_iterations (r.iteration_count + 1))) [
      | inl full ↦ (
        stop (count_up now r),
        rw (counted, full) marked,
        rw (counted, full) marked,
        refl,
        rw full refl,
      )
      | inr room ↦
          (count_up now r, rw (counted, room) refl, rw (counted, room) counted, refl, rw room refl)
    ]

-- A number of iterations; each reads two times.
unfoldable pub increments : ℕ → String → String → String → Runs → Runs
increments zero now later label rs = rs
increments (suc n) now later label rs =
    increments n now later label (increment_iteration now later label rs).1

-- From a row with `k` iterations, `n + 1` further ones leave the row with `k + n + 1`, in phase
-- `escalate` if these reach MAX_ITERATIONS and in phase `review` if not.
pub increments-phase :
    (n : ℕ) (now later label : String) (rs : Runs) (r : AuditRun)
    → row label rs ≡ ok r
    → (r' : AuditRun) × (row label (increments (suc n) now later label rs) ≡ ok r')
      × (r'.iteration_count ≡ r.iteration_count + suc n)
      × (r'.phase ≡ next_phase (r.iteration_count + suc n))
unfolding increments
increments-phase zero now later label rs r h =
    let (r', _, e, count, phase) = increment_row now later label rs r h in (r', e, count, phase)
increments-phase (suc n) now later label rs r h =
    let (r', _, e, count, _) = increment_row now later label rs r h in
    let (r2, e2, count2, phase2) =
      increments-phase n now later label (increment_iteration now later label rs).1 r' e in
    let sum : r'.iteration_count + suc n ≡ r.iteration_count + suc (suc n) = omega arith in
    (r2, e2, count2 ∙ sum, phase2 ∙ ap next_phase sum)
