-- ===== src/Tests/Guards.antt =====
-- The guards on concrete namespaces.
use mcp_kubernetes_platform.Prelude.{◌≡◌, ◌⊎◌, refl, true, false, none}
use mcp_kubernetes_platform.Prelude.Effects.{raised}
use mcp_kubernetes_platform.Guards.Namespaces.{
  protected_namespace_error, value_error, check_namespace_allowed, is_applier_eligible,
  is_trading_namespace, is_system_namespace, is_sandbox_namespace, starts_with,
  validate_no_applier_in_trading,
}
use mcp_kubernetes_platform.Guards.Agreement.{is_trading-guarded}
use mcp_kubernetes_platform.Ladder.Eligibility.{is_trading}
use mcp_kubernetes_platform.Gitops.Texts.{Finding, SandboxResult}
use mcp_kubernetes_platform.Gitops.Requests.{is_auto_merge_eligible}

sandboxed : is_applier_eligible "sandbox-7" ≡ false
unfolding is_applier_eligible is_trading_namespace is_system_namespace is_sandbox_namespace
    starts_with
sandboxed = refl

shop_eligible : is_applier_eligible "shop" ≡ true
unfolding is_applier_eligible is_trading_namespace is_system_namespace is_sandbox_namespace
    starts_with
shop_eligible = refl

abbrev finding : Finding
finding = record {
  finding_id = "f-2";
  severity = "high";
  namespace = "daxxon-trading";
  kind = "Deployment";
  name = "orders";
  fix_class = "image-tag";
  events_block = "";
  logs_block = "";
  manifest_diff = "";
}

abbrev verified : SandboxResult
verified = record { verdict = "healed"; sandbox_log_url = ""; smoke_test_output = "" }

is_trading-guarded_example :
    ((check_namespace_allowed "daxxon-trading" none
        ≡ raised (protected_namespace_error "daxxon-trading"))
      ⊎ (check_namespace_allowed "daxxon-trading" none ≡ raised (value_error "daxxon-trading")))
    × (is_applier_eligible "daxxon-trading" ≡ false)
    × (validate_no_applier_in_trading "daxxon-trading" ≡ raised (value_error "daxxon-trading"))
    × (is_auto_merge_eligible "daxxon-trading" finding verified "auto-merge" ≡ false)
unfolding is_trading
is_trading-guarded_example =
    is_trading-guarded "daxxon-trading" none finding "daxxon-trading" "auto-merge" verified refl
      refl
