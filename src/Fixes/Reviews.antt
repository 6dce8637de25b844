-- ===== src/Fixes/Reviews.antt =====
-- What a dispatched fix is, and why a dispatch fails.
use mathlib.Core.Path.{subst}
use mcp_kubernetes_platform.Prelude.{
  ℕ, ◌≡◌, ◌↔◌, refl, ap, ◌∙◌, Bool, true, false, String, Option, none, some, List, [], ◌∷◌, All,
  leb, inl, inr, Bool-cases,
}
use mcp_kubernetes_platform.Prelude.Effects.{Result, ok, raised}
use mcp_kubernetes_platform.Fixes.Data.{Finding, ClusterState, FixCandidate, FixError}
use mcp_kubernetes_platform.Fixes.Patches.{require}
use mcp_kubernetes_platform.Fixes.Conditions.{
  Handler, image_tag_migration, probe_tuning, orphan_job_cleanup,
  oom_killed_restart_with_bump_proposal, pvc_resize, dns_config_fix, node_selector_mismatch,
  toleration_missing, hpa_enable_metrics_server, pdb_too_strict, registry,
}
use mcp_kubernetes_platform.Fixes.Handlers.{
  migrate_to, fix_image, fix_probe, fix_orphan, fix_dns, select_first, fix_selector, fix_toleration,
  fix_metrics, relax_budget, fix_budget, fix_memory, fix_volume, generate_fix, then_do, dispatch,
}
use mcp_kubernetes_platform.Fixes.Choice.{
  dispatch_to-Refuses, Refuses, IsFirst, then_do-cases, dispatch_to-cases,
}

-- the handlers whose fixes wait for a review
abbrev pub needs_review : Handler → Bool
needs_review orphan_job_cleanup = true
needs_review oom_killed_restart_with_bump_proposal = true
needs_review node_selector_mismatch = true
needs_review toleration_missing = true
needs_review pdb_too_strict = true
needs_review h = false

-- All the candidates of a result ask for a review as `b` says.
abbrev Reviewed : Bool → Result FixError FixCandidate → Type 0
Reviewed b (raised e) = Unit
Reviewed b (ok fix) = fix.requires_review ≡ b

then_do-Reviewed :
    {A : Type 0} (b : Bool) (r : Result FixError A) (g : A → Result FixError FixCandidate)
    → ((a : A) → Reviewed b (g a))
    → Reviewed b (then_do r g)
then_do-Reviewed b (raised e) g h = tt
then_do-Reviewed b (ok a) g h = h a

migrate_to-Reviewed :
    (f : Finding) (i : String) (o : Option String) → Reviewed false (migrate_to f i o)
unfolding migrate_to
migrate_to-Reviewed f i none = tt
migrate_to-Reviewed f i (some new) = refl

select_first-Reviewed : (key : String) (vs : List String) → Reviewed true (select_first key vs)
unfolding select_first
select_first-Reviewed key [] = tt
select_first-Reviewed key (v ∷ vs) = refl

module _ (bumped grown : ℕ → ℕ → ℕ) (f : Finding) (k : ClusterState) where
  generate_fix-Reviewed :
      (h : Handler) → Reviewed (needs_review h) (generate_fix bumped grown h f k)
  unfolding generate_fix fix_image fix_probe fix_orphan fix_memory fix_volume fix_dns fix_selector
      fix_toleration fix_metrics fix_budget relax_budget
  generate_fix-Reviewed image_tag_migration =
      then_do-Reviewed false (require "current_image" f.raw.current_image) _
        (λ i. migrate_to-Reviewed f i _)
  generate_fix-Reviewed probe_tuning = refl
  generate_fix-Reviewed orphan_job_cleanup = refl
  generate_fix-Reviewed oom_killed_restart_with_bump_proposal =
      then_do-Reviewed true (require "current_memory_limit_bytes" f.raw.current_memory_limit_bytes)
        _ (λ m. refl)
  generate_fix-Reviewed pvc_resize =
      then_do-Reviewed false (require "capacity_gi" f.raw.capacity_gi) _ (λ c. refl)
  generate_fix-Reviewed dns_config_fix = refl
  generate_fix-Reviewed node_selector_mismatch =
      then_do-Reviewed true (require "mismatched_label_key" f.raw.mismatched_label_key) _
        (λ key. select_first-Reviewed key _)
  generate_fix-Reviewed toleration_missing =
      then_do-Reviewed true (require "blocking_taint" f.raw.blocking_taint) _ (λ taint.
        then_do-Reviewed true (require "key" taint.key) _
          (λ key. then_do-Reviewed true (require "effect" taint.effect) _ (λ e. refl)))
  generate_fix-Reviewed hpa_enable_metrics_server = refl
  generate_fix-Reviewed pdb_too_strict =
      then_do-Reviewed true (require "matched_pods" f.raw.matched_pods) _
        (λ n. elim (Bool-cases (leb n 1)) [ inl few ↦ rw few tt | inr more ↦ rw more refl ])

-- `dispatch` returns no fix exactly when no handler applies.
pub dispatch-none_iff :
    (bumped grown : ℕ → ℕ → ℕ) (f : Finding) (k : ClusterState)
    → (dispatch bumped grown f k ≡ ok none) ↔ All (Refuses f) registry
unfolding dispatch
dispatch-none_iff bumped grown f k = (
  λ e. elim (dispatch_to-cases bumped grown f k registry) [
    | inl none_fits ↦ none_fits.0
    | inr fits ↦ elim (then_do-cases (generate_fix bumped grown fits.0 f k) (λ g. ok (some g))) [
      | inl good ↦ absurd (cc (e, fits.2, good.2))
      | inr bad ↦ absurd (cc (e, fits.2, bad.2))
    ]
  ],
  dispatch_to-Refuses bumped grown f k registry,
)

-- When `dispatch` returns a fix, it is that of the first handler of the registry that applies, and it
-- asks for a review exactly if that handler deletes a job or changes a memory limit, a node selector,
-- a toleration or a disruption budget.
pub dispatch-some :
    (bumped grown : ℕ → ℕ → ℕ) (f : Finding) (k : ClusterState) (fix : FixCandidate)
    → dispatch bumped grown f k ≡ ok (some fix)
    → (h : Handler) × IsFirst registry f h
      × (generate_fix bumped grown h f k ≡ ok fix)
      × (fix.requires_review ≡ needs_review h)
unfolding dispatch
dispatch-some bumped grown f k fix e = elim (dispatch_to-cases bumped grown f k registry) [
  | inl none_fits ↦ absurd (cc (e, none_fits.1))
  | inr fits ↦
      let h = fits.0 in
      elim (then_do-cases (generate_fix bumped grown h f k) (λ g. ok (some g))) [
        | inr bad ↦ absurd (cc (e, fits.2, bad.2))
        | inl good ↦
            let same : good.0 ≡ fix = cc (e, fits.2, good.2) in
            let is : generate_fix bumped grown h f k ≡ ok fix = good.1 ∙ ap ok same in
            (
              h,
              fits.1,
              is,
              subst (Reviewed (needs_review h)) is (generate_fix-Reviewed bumped grown f k h),
            )
      ]
]
