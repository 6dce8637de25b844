-- ===== src/Gitops/Requests.antt =====
-- The configuration of the repositories, and the test for an automatic merge.
use mcp_kubernetes_platform.Prelude.{
  same_codes, Bool, false, not, String, Option, none, some, List, [], ◌∷◌, ◌==◌, any, is_in, get_or,
  codes, if◌then◌else◌,
}
use mcp_kubernetes_platform.Prelude.Assoc.{lookup}
use mcp_kubernetes_platform.Gitops.Texts.{Finding, SandboxResult, allowed_namespaces}

abbrev pub deterministic_fix_classes : List String
deterministic_fix_classes =
    "probe-fix" ∷ "resource-limit" ∷ "image-tag" ∷ "replica-count" ∷ "annotation-patch" ∷ []

abbrev pub trading_namespaces : List String
trading_namespaces = "ibkr-live-trader" ∷ "daxxon-trading" ∷ "brightflow-live" ∷ []

-- the dicts that `_load_gitops_config` gives, with their keys
pub record RepoOverride : Type 0 where
  pub repo : Option String
  pub base_branch : Option String
  pub policy : Option String
  pub assignee : Option String

pub record GitopsConfig : Type 0 where
  pub default_repo : Option String
  pub default_base_branch : Option String
  pub repo_overrides : List (String × RepoOverride)

-- the tuple of `_repo_for_namespace`
pub record Target : Type 0 where
  pub repo : String
  pub base_branch : String
  pub policy : String
  pub assignee : String

abbrev pub target_of : GitopsConfig → Option RepoOverride → Target
target_of cfg none = record {
  repo = get_or cfg.default_repo "";
  base_branch = get_or cfg.default_base_branch "main";
  policy = "auto-merge";
  assignee = "";
}
target_of cfg (some ov) = record {
  repo = get_or ov.repo (get_or cfg.default_repo "");
  base_branch = get_or ov.base_branch (get_or cfg.default_base_branch "main");
  policy = get_or ov.policy "auto-merge";
  assignee = get_or ov.assignee "";
}

unfoldable pub repo_for_namespace : String → GitopsConfig → Target
repo_for_namespace ns cfg = target_of cfg (lookup ns cfg.repo_overrides)

-- `namespace in TRADING_NAMESPACES`
unfoldable pub is_trading : String → Bool
is_trading ns = is_in ns trading_namespaces

-- `namespace in allowed`, for the text of ALLOWED_AUTO_MERGE_NAMESPACES; nothing is in an empty set
unfoldable pub is_allowed : String → String → Bool
is_allowed allowed_env ns = any (same_codes (codes ns)) (allowed_namespaces allowed_env)

unfoldable pub is_auto_merge_eligible : String → Finding → SandboxResult → String → Bool
is_auto_merge_eligible allowed_env f sandbox policy =
    if policy == "pr-only"
    then false
    else if is_trading f.namespace
    then false
    else if not (sandbox.verdict == "healed")
    then false
    else if not (is_in f.fix_class deterministic_fix_classes)
    then false
    else is_allowed allowed_env f.namespace
