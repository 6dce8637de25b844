-- ===== src/Guards/Agreement.antt =====
-- The ladder, the guard, the RBAC identities and the pull requests on the same namespaces.
use mcp_kubernetes_platform.Prelude.{
  ◌≡◌, ◌↔◌, ◌⊎◌, inl, inr, refl, ap, ◌∙◌, true, false, ◌||◌, String, Option, List, [], ◌∷◌, ◌++◌,
  arith, is_in, get_or, is_blank, Bool-cases,
}
use mcp_kubernetes_platform.Prelude.Effects.{ok, raised}
use mcp_kubernetes_platform.Guards.Namespaces.{
  protected_namespace_error, value_error, trading_blocked_namespaces, blocked,
  check_namespace_allowed, is_trading_namespace, is_applier_eligible,
  validate_no_applier_in_trading,
}
use mcp_kubernetes_platform.Ladder.Eligibility.{is_trading}
use mcp_kubernetes_platform.Gitops.Texts.{Finding, SandboxResult}
use mcp_kubernetes_platform.Gitops.Requests
use mcp_kubernetes_platform.Gitops.Requests.{is_auto_merge_eligible}

is_in-append : (s : String) (xs ys : List String) → is_in s (xs ++ ys) ≡ is_in s xs || is_in s ys
is_in-append s [] ys = refl
is_in-append s (x ∷ xs) ys = ground (arith, is_in-append s xs ys)

-- The guard lets a namespace pass exactly when it is not blank, and neither on its own list nor
-- among the namespaces that the caller adds.
pub check_namespace_allowed-ok_iff :
    (ns : String) (extra : Option (List String))
    → (check_namespace_allowed ns extra ≡ ok tt)
      ↔ ((is_blank ns ≡ false) × (is_trading ns ≡ false) × (is_in ns (get_or extra []) ≡ false))
unfolding check_namespace_allowed blocked is_trading
check_namespace_allowed-ok_iff ns extra =
    let split = is_in-append ns trading_blocked_namespaces (get_or extra []) in
    (
      λ h. (ground (arith, h), ground (arith, h, split), ground (arith, h, split)),
      λ h. ground (arith, h.0, h.1, h.2, split),
    )

trading-merge : (ns : String) → is_trading ns ≡ true → Requests.is_trading ns ≡ true
unfolding is_trading Requests.is_trading
trading-merge ns h = h

not_merged :
    (f : Finding) (allowed_env policy : String) (sandbox : SandboxResult)
    → Requests.is_trading f.namespace ≡ true
    → is_auto_merge_eligible allowed_env f sandbox policy ≡ false
unfolding is_auto_merge_eligible
not_merged f allowed_env policy sandbox h = ground (arith, h)

-- A namespace that the ladder refuses is refused by the other guards too: the namespace guard
-- raises, the applier identity may not be bound there, and no pull request merges by itself.
pub is_trading-guarded :
    (ns : String) (extra : Option (List String)) (f : Finding) (allowed_env policy : String)
    (sandbox : SandboxResult)
    → is_trading ns ≡ true
    → f.namespace ≡ ns
    → ((check_namespace_allowed ns extra ≡ raised (protected_namespace_error ns))
        ⊎ (check_namespace_allowed ns extra ≡ raised (value_error ns)))
      × (is_applier_eligible ns ≡ false)
      × (validate_no_applier_in_trading ns ≡ raised (value_error ns))
      × (is_auto_merge_eligible allowed_env f sandbox policy ≡ false)
unfolding is_trading check_namespace_allowed blocked is_applier_eligible
    validate_no_applier_in_trading is_trading_namespace
is_trading-guarded ns extra f allowed_env policy sandbox trading same = (
  elim (Bool-cases (is_blank ns)) [
    | inl blank ↦ inr (rw blank refl)
    | inr full ↦ inl (ground (arith, full, trading))
  ],
  ground (arith, trading),
  ground (arith, trading),
  not_merged f allowed_env policy sandbox
      (trading-merge f.namespace (ap is_trading same ∙ trading)),
)
