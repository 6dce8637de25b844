-- ===== src/Fixes/Causes.antt =====
-- Why a dispatch fails, and what the fix of a disruption budget keeps.
use mathlib.Core.Path.{subst}
use mcp_kubernetes_platform.Prelude.{
  ℕ, suc, ◌-◌, ◌≤◌, ◌≡◌, ◌⊎◌, refl, sym, ap, ◌∙◌, Bool, true, not, ◌&&◌, ◌||◌, String, ◌==◌, Option,
  none, some, List, [], ◌∷◌, arith, leb, leb→le, is_some, get_or, inl, inr, Bool-cases,
  Option-cases,
}
use mcp_kubernetes_platform.Prelude.Effects.{Result, ok, raised}
use mcp_kubernetes_platform.Prelude.Assoc.{lookup}
use mcp_kubernetes_platform.Fixes.Data.{
  Finding, ClusterState, Taint, patch, FixCandidate, FixError, missing_key, no_mapping, no_nodes,
  few_replicas,
}
use mcp_kubernetes_platform.Fixes.Patches.{require}
use mcp_kubernetes_platform.Fixes.Conditions.{
  Handler, image_tag_migration, probe_tuning, orphan_job_cleanup,
  oom_killed_restart_with_bump_proposal, pvc_resize, dns_config_fix, node_selector_mismatch,
  toleration_missing, hpa_enable_metrics_server, pdb_too_strict, registry,
}
use mcp_kubernetes_platform.Fixes.Handlers.{
  known_migrations, migrate_to, fix_image, select_first, fix_selector, fix_toleration,
  min_available, budget_fix, relax_budget, fix_budget, fix_memory, fix_volume, generate_fix,
  then_do, dispatch,
}
use mcp_kubernetes_platform.Fixes.Choice.{then_do-cases, dispatch_to-cases}

abbrev lacks : {A : Type 0} → String → String → Option A → Bool
lacks q key o = q == key && not (is_some o)

abbrev lacks_taint : String → Option Taint → Bool
lacks_taint q none = q == "blocking_taint"
lacks_taint q (some t) = lacks q "key" t.key || lacks q "effect" t.effect

-- a key that a handler needs, and the finding does not have
abbrev pub is_missing : String → Finding → Bool
is_missing q f =
    lacks q "current_image" f.raw.current_image
    || lacks q "current_memory_limit_bytes" f.raw.current_memory_limit_bytes
    || lacks q "capacity_gi" f.raw.capacity_gi
    || lacks q "mismatched_label_key" f.raw.mismatched_label_key
    || lacks q "matched_pods" f.raw.matched_pods
    || lacks_taint q f.raw.blocking_taint

-- what an error says of the finding and the cluster
abbrev pub Cause : Finding → ClusterState → FixError → Type 0
Cause f k (missing_key q) = is_missing q f ≡ true
Cause f k (no_mapping i) = (f.raw.current_image ≡ some i) × (lookup i known_migrations ≡ none)
Cause f k (no_nodes key) =
    (f.raw.mismatched_label_key ≡ some key)
    × (get_or (lookup key (get_or k.node_label_values [])) [] ≡ [])
Cause f k (few_replicas name n) = (name ≡ f.resource_name) × (f.raw.matched_pods ≡ some n) × (n ≤ 1)

abbrev Caused : {A : Type 0} → Finding → ClusterState → Result FixError A → Type 0
Caused f k (ok a) = Unit
Caused f k (raised e) = Cause f k e

module _ (f : Finding) (k : ClusterState) where
  -- a key that is needed
  require-Caused :
      {A B : Type 0} (q : String) (o : Option A) (g : A → Result FixError B)
      → (o ≡ none → is_missing q f ≡ true)
      → ((a : A) → o ≡ some a → Caused f k (g a))
      → Caused f k (then_do (require q o) g)
  require-Caused q none g h there = h refl
  require-Caused q (some a) g h there = there a refl

  migrate_to-Caused :
      (i : String) (o : Option String)
      → f.raw.current_image ≡ some i
      → lookup i known_migrations ≡ o
      → Caused f k (migrate_to f i o)
  unfolding migrate_to
  migrate_to-Caused i none h l = (h, l)
  migrate_to-Caused i (some n) h l = tt

  select_first-Caused :
      (key : String) (vs : List String)
      → f.raw.mismatched_label_key ≡ some key
      → get_or (lookup key (get_or k.node_label_values [])) [] ≡ vs
      → Caused f k (select_first key vs)
  unfolding select_first
  select_first-Caused key [] h l = (h, l)
  select_first-Caused key (v ∷ vs) h l = tt

  module _ (bumped grown : ℕ → ℕ → ℕ) where
    generate_fix-Caused : (h : Handler) → Caused f k (generate_fix bumped grown h f k)
    unfolding generate_fix fix_image fix_memory fix_volume fix_selector fix_toleration fix_budget
        relax_budget
    generate_fix-Caused image_tag_migration =
        require-Caused "current_image" f.raw.current_image _ (λ h. rw h refl)
          (λ i h. migrate_to-Caused i _ h refl)
    generate_fix-Caused probe_tuning = tt
    generate_fix-Caused orphan_job_cleanup = tt
    generate_fix-Caused oom_killed_restart_with_bump_proposal =
        require-Caused "current_memory_limit_bytes" f.raw.current_memory_limit_bytes _
          (λ h. rw h refl) (λ m h. tt)
    generate_fix-Caused pvc_resize =
        require-Caused "capacity_gi" f.raw.capacity_gi _ (λ h. rw h refl) (λ m h. tt)
    generate_fix-Caused dns_config_fix = tt
    generate_fix-Caused node_selector_mismatch =
        require-Caused "mismatched_label_key" f.raw.mismatched_label_key _ (λ h. rw h refl)
          (λ key h. select_first-Caused key _ h refl)
    generate_fix-Caused toleration_missing =
        require-Caused "blocking_taint" f.raw.blocking_taint _ (λ h. rw h refl)
          (λ taint h.
            require-Caused "key" taint.key _ (λ none_key. rw (h, none_key) refl)
              (λ key h'.
                require-Caused "effect" taint.effect _ (λ no_effect. rw (h, no_effect) refl)
                  (λ e h''. tt)))
    generate_fix-Caused hpa_enable_metrics_server = tt
    generate_fix-Caused pdb_too_strict =
        require-Caused "matched_pods" f.raw.matched_pods _ (λ h. rw h refl)
          (λ n h. elim (Bool-cases (leb n 1)) [
            | inl few ↦ rw few (refl, h, leb→le n 1 few)
            | inr more ↦ rw more tt
          ])

-- When `dispatch` raises, the error says what is so: a KeyError names a key that the finding lacks, and
-- a ValueError the image without a mapping, the label that no node carries, or the budget and its at
-- most one replica.
pub dispatch-Cause :
    (bumped grown : ℕ → ℕ → ℕ) (f : Finding) (k : ClusterState) (e : FixError)
    → dispatch bumped grown f k ≡ raised e
    → Cause f k e
unfolding dispatch
dispatch-Cause bumped grown f k e h = elim (dispatch_to-cases bumped grown f k registry) [
  | inl none_fits ↦ absurd (cc (h, none_fits.1))
  | inr fits ↦
      let first = fits.0 in
      elim (then_do-cases (generate_fix bumped grown first f k) (λ g. ok (some g))) [
        | inl good ↦ absurd (cc (h, fits.2, good.2))
        | inr bad ↦
            let same : bad.0 ≡ e = cc (h, fits.2, bad.2) in
            subst (Caused {A = FixCandidate} f k) (bad.1 ∙ ap raised same)
              (generate_fix-Caused f k bumped grown first)
      ]
]

relax_budget-cases :
    (f : Finding) (n : ℕ)
    → (relax_budget f n ≡ raised (few_replicas f.resource_name n))
      ⊎ ((fix : FixCandidate) × (2 ≤ n)
          × (fix.payload ≡ patch (min_available (n - 1)))
          × (relax_budget f n ≡ ok fix))
unfolding relax_budget
relax_budget-cases f n = elim (Bool-cases (leb n 1)) [
  | inl few ↦ inl (rw few refl)
  | inr more ↦ inr (budget_fix f n, ground (arith, more), refl, rw more refl)
]

-- When the handler of disruption budgets makes a fix, it lowers minAvailable to one less than the
-- matched pods, which leaves it at least one.
pub fix_budget-patch :
    (f : Finding) (fix : FixCandidate)
    → fix_budget f ≡ ok fix
    → (n : ℕ) × (f.raw.matched_pods ≡ some (suc n))
      × (1 ≤ n)
      × (fix.payload ≡ patch (min_available n))
unfolding fix_budget
fix_budget-patch f fix h = elim (Option-cases f.raw.matched_pods) [
  | inl missing ↦
      absurd (cc (h, ap (λ o. then_do (require "matched_pods" o) (relax_budget f)) missing))
  | inr pods ↦ elim (relax_budget-cases f pods.0) [
    | inl few ↦
        absurd (cc (h, ap (λ o. then_do (require "matched_pods" o) (relax_budget f)) pods.1, few))
    | inr more ↦
        let same : more.0 ≡ fix =
          cc (h, ap (λ o. then_do (require "matched_pods" o) (relax_budget f)) pods.1, more.3) in
        (
          pods.0 - 1,
          pods.1 ∙ ap some (omega (arith, more.1)),
          omega (arith, more.1),
          ap (λ g. g.payload) (sym same) ∙ more.2,
        )
  ]
]
