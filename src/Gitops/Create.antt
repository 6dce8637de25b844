-- ===== src/Gitops/Create.antt =====
-- `create_remediation_pr`, with the `gh` commands that it runs.
use mcp_kubernetes_platform.Prelude.{
  ℕ, Bool, true, false, ◌&&◌, ◌||◌, not, String, Option, none, some, List, [], ◌∷◌, ◌==◌, ◌<>◌,
  if◌then◌else◌,
}
use mcp_kubernetes_platform.Prelude.Effects.{Exec, Result, ok, raised, pure, when, ◌>>=◌, ◌>>◌}
use mcp_kubernetes_platform.Gitops.Texts.{
  Finding, SandboxResult, build_title, build_body, idempotency_marker, pr_number_of,
}
use mcp_kubernetes_platform.Gitops.Requests.{
  GitopsConfig, Target, repo_for_namespace, is_trading, is_auto_merge_eligible,
}

pub record PullRequest : Type 0 where
  pub number : ℕ
  pub url : String

pub record PrResult : Type 0 where
  pub pr_url : String
  pub pr_number : ℕ
  pub was_existing : Bool
  pub auto_merge_eligible : Bool

-- The commands of `gh` with what varies in them: the repository first.
pub data Command : Type 0 where
  pr_list create_label : String → String → Command
  pr_comment : String → ℕ → Bool → String → Command
  pr_create : String → String → String → String → String → List String → Command
  add_assignee : String → ℕ → String → Command
  pr_merge : String → ℕ → Command

-- CalledProcessError, of a command that is run with check=True
pub data CommandError : Type 0 where
  called_process_error : Command → CommandError

abbrev pub Commands : Type 0
Commands = List Command

-- What `gh`, the clock and the environment answer; `none` is an exit code other than 0. The answer to
-- a search depends on its command: the repository and the text that is searched for.
pub record Outside : Type 0 where
  pub open_prs : Commands → Command → Option (List PullRequest)
  pub commented : Commands → Bool
  -- the standard output, stripped
  pub created : Commands → Option String
  pub lower : String → String
  pub timestamp : String
  -- whether GITOPS_DRY_RUN is "true"
  pub gitops_dry_run : Bool
  pub allowed_env : String

abbrev pub Run : Type 0 → Type 0
Run A = Exec CommandError Commands A

abbrev pub first_of : Option (List PullRequest) → Command → Result CommandError (Option PullRequest)
first_of none c = raised (called_process_error c)
first_of (some []) c = ok none
first_of (some (pr ∷ prs)) c = ok (some pr)

-- a command whose failure is not looked at
abbrev pub run_unchecked : Command → Run Unit
run_unchecked c cs = (ok tt, c ∷ cs)

unfoldable pub create_labels : String → List String → Run Unit
create_labels repo [] = pure tt
create_labels repo (l ∷ ls) = run_unchecked (create_label repo l) >> create_labels repo ls

-- the list that `_ensure_labels` builds
unfoldable pub all_labels : Finding → SandboxResult → List String → List String
all_labels f sandbox extra =
    "auto-remediate"
    ∷ ("severity/" <> f.severity)
    ∷ ("fix-class/" <> f.fix_class)
    ∷ (if sandbox.verdict == "healed" then "sandbox-verified/true" else "sandbox-verified/false")
    ∷ extra

unfoldable pub ensure_labels : String → Finding → SandboxResult → List String → Run Unit
ensure_labels repo f sandbox extra = create_labels repo (all_labels f sandbox extra)

module _ (env : Outside) where
  unfoldable pub find_existing_pr : String → String → String → Run (Option PullRequest)
  find_existing_pr repo finding_id fix_id cs =
      let c : Command = pr_list repo (idempotency_marker finding_id fix_id) in
      (first_of (env.open_prs cs c) c, c ∷ cs)

  unfoldable pub comment_on : String → PullRequest → Bool → String → Run Unit
  comment_on repo pr auto_merge verdict cs =
      let c : Command = pr_comment repo pr.number auto_merge verdict in
      (if env.commented cs then ok tt else raised (called_process_error c), c ∷ cs)

  unfoldable pub create : Command → Run String
  create c cs =
      (elim (env.created cs) [ none ↦ raised (called_process_error c) | some url ↦ ok url ], c ∷ cs)

  -- `is_trading`, the extra labels, and the labels of the command
  abbrev pub needs_review : Finding → Target → Bool
  needs_review f t = is_trading f.namespace || t.policy == "pr-only"

  unfoldable pub extra_labels : Finding → Target → Bool → List String
  extra_labels f t auto_merge =
      if needs_review f t || not auto_merge then "human-review-required" ∷ [] else []

  unfoldable pub create_command : Finding → String → SandboxResult → Target → Bool → Command
  create_command f fix_id sandbox t auto_merge =
      pr_create t.repo t.base_branch ("auto-remediate/" <> f.finding_id <> "-" <> fix_id)
        (build_title env.lower f) (build_body f fix_id sandbox)
        ("auto-remediate"
          ∷ ("severity/" <> f.severity)
          ∷ ("fix-class/" <> f.fix_class)
          ∷ extra_labels f t auto_merge)

  -- what follows the creation: an assignee, the automatic merge, and the result
  unfoldable pub finish : Finding → Target → Bool → String → Run PrResult
  finish f t auto_merge url = do
    when (needs_review f t && not (t.assignee == ""))
        (run_unchecked (add_assignee t.repo (pr_number_of url) t.assignee))
    when auto_merge (run_unchecked (pr_merge t.repo (pr_number_of url)))
    pure (record {
      pr_url = url;
      pr_number = pr_number_of url;
      was_existing = false;
      auto_merge_eligible = auto_merge;
    })

  -- the case of an open pull request, and that of none
  unfoldable pub proceed :
      Finding → String → SandboxResult → Target → Bool → Option PullRequest → Run PrResult
  proceed f fix_id sandbox t auto_merge (some pr) = do
    comment_on t.repo pr auto_merge sandbox.verdict
    pure (record {
      pr_url = pr.url;
      pr_number = pr.number;
      was_existing = true;
      auto_merge_eligible = auto_merge;
    })
  proceed f fix_id sandbox t auto_merge none = do
    ensure_labels t.repo f sandbox (extra_labels f t auto_merge)
    url ← create (create_command f fix_id sandbox t auto_merge)
    finish f t auto_merge url

  abbrev pub eligible : Finding → SandboxResult → Target → Bool
  eligible f sandbox t = is_auto_merge_eligible env.allowed_env f sandbox t.policy

  unfoldable pub create_remediation_pr :
      GitopsConfig → Finding → String → SandboxResult → Bool → Run PrResult
  create_remediation_pr cfg f fix_id sandbox dry_run =
      let t : Target = repo_for_namespace f.namespace cfg in
      if dry_run || env.gitops_dry_run
      then pure (record {
        pr_url = "dry-run://not-created";
        pr_number = 0;
        was_existing = false;
        auto_merge_eligible = false;
      })
      else (find_existing_pr t.repo f.finding_id fix_id
          >>= proceed f fix_id sandbox t (eligible f sandbox t))
