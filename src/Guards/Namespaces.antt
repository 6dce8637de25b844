-- ===== src/Guards/Namespaces.antt =====
-- src/auto_remediate/namespace_guard.py, and the namespaces of src/auto_remediate/rbac_identities.py.
use mcp_kubernetes_platform.Prelude.{
  ℕ, Bool, true, false, ◌&&◌, not, String, Option, List, [], ◌∷◌, ◌++◌, eqb, is_in, get_or, codes,
  is_blank, if◌then◌else◌,
}
use mcp_kubernetes_platform.Prelude.Effects.{Result, ok, raised}

abbrev pub trading_blocked_namespaces : List String
trading_blocked_namespaces = "ibkr-live-trader" ∷ "daxxon-trading" ∷ "brightflow-live" ∷ []

pub data GuardError : Type 0 where
  protected_namespace_error value_error : String → GuardError

-- `blocked`: the union with the namespaces that the caller adds
unfoldable pub blocked : Option (List String) → List String
blocked extra_blocked = trading_blocked_namespaces ++ get_or extra_blocked []

unfoldable pub check_namespace_allowed : String → Option (List String) → Result GuardError Unit
check_namespace_allowed namespace extra_blocked =
    if is_blank namespace
    then raised (value_error namespace)
    else if is_in namespace (blocked extra_blocked)
    then raised (protected_namespace_error namespace)
    else ok tt

abbrev pub trading_namespaces : List String
trading_namespaces = "ibkr-live-trader" ∷ "daxxon-trading" ∷ "brightflow-live" ∷ []

abbrev pub system_namespaces : List String
system_namespaces = "kube-system" ∷ "kube-public" ∷ "kube-node-lease" ∷ "auto-remediate" ∷ []

unfoldable pub is_trading_namespace : String → Bool
is_trading_namespace namespace = is_in namespace trading_namespaces

unfoldable pub is_system_namespace : String → Bool
is_system_namespace namespace = is_in namespace system_namespaces

-- `str.startswith`
unfoldable pub starts_with : List ℕ → List ℕ → Bool
starts_with s [] = true
starts_with [] (d ∷ p) = false
starts_with (c ∷ s) (d ∷ p) = eqb c d && starts_with s p

unfoldable pub is_sandbox_namespace : String → Bool
is_sandbox_namespace namespace = starts_with (codes namespace) (codes "sandbox-")

unfoldable pub is_applier_eligible : String → Bool
is_applier_eligible namespace =
    not (is_trading_namespace namespace)
    && not (is_system_namespace namespace)
    && not (is_sandbox_namespace namespace)

unfoldable pub validate_no_applier_in_trading : String → Result GuardError Unit
validate_no_applier_in_trading namespace =
    if is_trading_namespace namespace then raised (value_error namespace) else ok tt
