-- ===== src/Tests/Gitops.antt =====
-- Pull requests for concrete findings.
use mcp_kubernetes_platform.Prelude.{
  lstrip, rstrip, same_codes, ◌≡◌, ◌⊎◌, refl, true, false, none, some, List, [],
}
use mcp_kubernetes_platform.Prelude.Assoc.{lookup}
use mcp_kubernetes_platform.Gitops.Texts.{
  Finding, SandboxResult, allowed_namespaces, split, split_from, pr_number_of, last_part, decimal,
}
use mcp_kubernetes_platform.Gitops.Requests.{
  GitopsConfig, repo_for_namespace, is_trading, is_allowed, is_auto_merge_eligible,
}
use mcp_kubernetes_platform.Gitops.Create.{
  PullRequest, Outside, create_remediation_pr, find_existing_pr, proceed, ensure_labels,
  create_labels, all_labels, create, create_command, extra_labels, finish,
}
use mcp_kubernetes_platform.Gitops.Merges.{merges, CanMerge, create_remediation_pr-merges}

abbrev finding : Finding
finding = record {
  finding_id = "f-1";
  severity = "high";
  namespace = "shop";
  kind = "Deployment";
  name = "web";
  fix_class = "image-tag";
  events_block = "";
  logs_block = "";
  manifest_diff = "";
}

abbrev sandbox : SandboxResult
sandbox = record { verdict = "healed"; sandbox_log_url = ""; smoke_test_output = "" }

abbrev config : GitopsConfig
config = record {
  default_repo = some "acme/gitops";
  default_base_branch = none;
  repo_overrides = [];
}

abbrev github : List PullRequest → Outside
github prs = record {
  open_prs = λ h c. some prs;
  commented = λ h. true;
  created = λ h. some "https://github.com/acme/gitops/pull/17/";
  lower = λ s. "deployment";
  timestamp = "2026-01-01T00:00:00+00:00";
  gitops_dry_run = false;
  allowed_env = "blog, shop ,";
}

number : pr_number_of "https://github.com/acme/gitops/pull/17/" ≡ 17
unfolding pr_number_of split split_from last_part decimal
number = refl

listed : is_allowed "blog, shop ," "shop" ≡ true
unfolding is_allowed allowed_namespaces split split_from lstrip rstrip same_codes
listed = refl

-- the finding's pull request is set to merge by itself
merges_one : merges (create_remediation_pr (github []) config finding "x-1" sandbox false []).1 ≡ 1
unfolding create_remediation_pr find_existing_pr proceed ensure_labels create_labels all_labels
    create create_command finish is_auto_merge_eligible is_trading is_allowed allowed_namespaces
    split split_from lstrip rstrip same_codes repo_for_namespace extra_labels lookup
merges_one = refl

create_remediation_pr-merges_example :
    (merges (create_remediation_pr (github []) config finding "x-1" sandbox false []).1 ≡ 0)
    ⊎ ((merges (create_remediation_pr (github []) config finding "x-1" sandbox false []).1 ≡ 1)
        × CanMerge (github []) config finding "x-1" sandbox false [])
create_remediation_pr-merges_example =
    create_remediation_pr-merges (github []) config finding "x-1" sandbox false []

abbrev pr : PullRequest
pr = record { number = 17; url = "https://github.com/acme/gitops/pull/17" }
