-- ===== src/Scaling/Categories.antt =====
-- Which findings an autoscaler can have at once.
use mcp_kubernetes_platform.Prelude.{
  ℕ, ◌≡◌, refl, Bool, true, false, ◌&&◌, ◌||◌, not, String, ◌==◌, List, [], ◌∷◌, ◌++◌, any, eqb,
  eqb→eq, length, inl, inr, Bool-cases, arith,
}
use mcp_kubernetes_platform.Observer.Findings.{Finding}
use mcp_kubernetes_platform.Budgets.Analyzer.{Read, found, missing, failed}
use mcp_kubernetes_platform.Scaling.Analyzer.{
  HpaCondition, Hpa, max_of, min_of, current_of, conditions_of, has_no_metrics, about_hpa,
  target_missing, no_metrics, capped_at_max, is_capped, is_stale, never_scaling, metrics_findings,
  with_cap, with_stale, checks, evaluate_hpa,
}

-- some finding has the category
abbrev pub has : String → List Finding → Bool
has c fs = any (λ f. f.category == c) fs

-- the categories that exclude each other
abbrev pub Exclusive : List Finding → Type 0
Exclusive fs =
    (has "capped_at_max" fs && has "never_scaling" fs ≡ false)
    × (has "no_metrics" fs && has "never_scaling" fs ≡ false)
    × (has "target_missing" fs && not (eqb (length fs) 1) ≡ false)

has-append : (c : String) (xs ys : List Finding) → has c (xs ++ ys) ≡ has c xs || has c ys
has-append c [] ys = refl
has-append c (x ∷ xs) ys = ground (arith, has-append c xs ys)

module _ (dumps : String → String) (hpa : Hpa) where
  metrics-has :
      (c : String) (cs : List HpaCondition)
      → ("no_metrics" == c) ≡ false
      → has c (metrics_findings dumps hpa cs) ≡ false
  unfolding metrics_findings no_metrics about_hpa
  metrics-has c [] h = refl
  metrics-has c (x ∷ cs) h = elim (Bool-cases (has_no_metrics x)) [
    | inl bad ↦ rw (bad, h) (metrics-has c cs h)
    | inr fine ↦ rw fine (metrics-has c cs h)
  ]

  -- the categories of the two later findings
  capped-has :
      (c : String) (m n : ℕ) (fs : List Finding)
      → has c (fs ++ capped_at_max dumps hpa m n ∷ []) ≡ has c fs || ("capped_at_max" == c || false)
  unfolding capped_at_max about_hpa
  capped-has c m n fs = has-append c fs (capped_at_max dumps hpa m n ∷ [])

  never-has :
      (c : String) (m n : ℕ) (fs : List Finding)
      → has c (fs ++ never_scaling dumps hpa m n ∷ []) ≡ has c fs || ("never_scaling" == c || false)
  unfolding never_scaling about_hpa
  never-has c m n fs = has-append c fs (never_scaling dumps hpa m n ∷ [])

  module _ (now later cap stale : ℕ) where
    -- at the maximum, and not at a minimum below it
    exclusive :
        (fs : List Finding)
        → is_capped dumps hpa now later cap stale ≡ true
        → is_stale dumps hpa now later cap stale fs ≡ false
    unfolding is_capped is_stale
    exclusive fs h = elim (Bool-cases (eqb (current_of hpa.status) (max_of hpa.spec))) [
      | inr below ↦ absurd (cc (h, below))
      | inl at_max ↦
          let e : current_of hpa.status ≡ max_of hpa.spec = eqb→eq _ _ at_max in ground (arith, e)
    ]

    stale-metrics :
        (fs : List Finding)
        → is_stale dumps hpa now later cap stale fs ≡ true
        → has "no_metrics" fs ≡ false
    unfolding is_stale
    stale-metrics fs h = ground (arith, h)

    checks-Exclusive : Exclusive (checks dumps hpa now later cap stale)
    unfolding checks with_cap with_stale
    checks-Exclusive =
        let ms = metrics_findings dumps hpa (conditions_of hpa.status) in
        let no_cap = metrics-has "capped_at_max" (conditions_of hpa.status) refl in
        let no_never = metrics-has "never_scaling" (conditions_of hpa.status) refl in
        let no_target = metrics-has "target_missing" (conditions_of hpa.status) refl in
        elim (Bool-cases (is_capped dumps hpa now later cap stale)) [
          | inl capped ↦
              let m = current_of hpa.status in
              let n = max_of hpa.spec in
              rw (capped, exclusive (ms ++ capped_at_max dumps hpa m n ∷ []) capped)
                (
                  ground (arith, no_never, capped-has "never_scaling" m n ms),
                  ground (arith, no_never, capped-has "never_scaling" m n ms),
                  ground (arith, no_target, capped-has "target_missing" m n ms),
                )
          | inr uncapped ↦ elim (Bool-cases (is_stale dumps hpa now later cap stale ms)) [
            | inl is_stale_now ↦
                let m = current_of hpa.status in
                let n = min_of hpa.spec in
                rw (uncapped, is_stale_now)
                  (
                    ground (arith, no_cap, never-has "capped_at_max" m n ms),
                    ground (arith, stale-metrics ms is_stale_now, never-has "no_metrics" m n ms),
                    ground (arith, no_target, never-has "target_missing" m n ms),
                  )
            | inr moving ↦
                rw (uncapped, moving)
                  (ground (arith, no_never), ground (arith, no_never), ground (arith, no_target))
          ]
        ]

-- Of one autoscaler no finding says that it is capped beside one that says that it never scales, none
-- says that it never scales beside one that it has no metrics, and a missing target is the only finding.
pub evaluate_hpa-Exclusive :
    (dumps : String → String) (hpa : Hpa) (now later cap stale : ℕ) (target : Read Unit)
    → Exclusive (evaluate_hpa dumps hpa now later cap stale target)
unfolding evaluate_hpa target_missing about_hpa
evaluate_hpa-Exclusive dumps hpa now later cap stale (found u) =
    checks-Exclusive dumps hpa now later cap stale
evaluate_hpa-Exclusive dumps hpa now later cap stale missing = (refl, refl, refl)
evaluate_hpa-Exclusive dumps hpa now later cap stale (failed e) =
    checks-Exclusive dumps hpa now later cap stale
