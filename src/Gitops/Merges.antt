-- ===== src/Gitops/Merges.antt =====
-- Which pull requests are made, labelled and merged.
use mcp_kubernetes_platform.Prelude.{
  ℕ, suc, ◌≡◌, ◌⊎◌, inl, inr, refl, ap, ◌∙◌, Bool, true, false, ◌&&◌, ◌||◌, not, String, ◌<>◌, none,
  some, List, [], ◌∷◌, ◌==◌, arith, is_in, Bool-cases, Option-cases,
}
use mcp_kubernetes_platform.Prelude.Effects.{Result, ok, raised, ◌>>=◌, continue}
use mcp_kubernetes_platform.Gitops.Texts.{Finding, SandboxResult, idempotency_marker}
use mcp_kubernetes_platform.Gitops.Requests.{
  GitopsConfig, Target, repo_for_namespace, is_trading, is_allowed, is_auto_merge_eligible,
  deterministic_fix_classes,
}
use mcp_kubernetes_platform.Gitops.Create.{
  PullRequest, PrResult, Command, CommandError, first_of, pr_list, create_label, pr_create,
  pr_merge, Commands, Outside, Run, create_labels, all_labels, ensure_labels, find_existing_pr,
  comment_on, create, extra_labels, create_command, needs_review, finish, proceed, eligible,
  create_remediation_pr,
}

-- how many pull requests were made, and how many set to merge by themselves
abbrev pub creations : Commands → ℕ
creations [] = 0
creations (pr_create r b h t body ls ∷ cs) = suc (creations cs)
creations (c ∷ cs) = creations cs

abbrev pub merges : Commands → ℕ
merges [] = 0
merges (pr_merge r n ∷ cs) = suc (merges cs)
merges (c ∷ cs) = merges cs

create_labels-merges :
    (repo : String) (ls : List String) (cs : Commands)
    → merges (create_labels repo ls cs).1 ≡ merges cs
unfolding create_labels
create_labels-merges repo [] cs = refl
create_labels-merges repo (l ∷ ls) cs = create_labels-merges repo ls (create_label repo l ∷ cs)

-- A run sets at most one pull request to merge, and if it does, `Q` holds.
module _ (Q : Type 0) where
  abbrev pub AtMostOne : {A : Type 0} → Run A → Type 0
  AtMostOne m =
      (cs : Commands) → (merges (m cs).1 ≡ merges cs) ⊎ ((merges (m cs).1 ≡ suc (merges cs)) × Q)

  AtMostOne-continue :
      {A B : Type 0} (r : Result CommandError A) (f : A → Run B)
      → ((a : A) → AtMostOne (f a))
      → AtMostOne (continue r f)
  AtMostOne-continue (ok a) f k cs = k a cs
  AtMostOne-continue (raised e) f k cs = inl refl

  AtMostOne-bind :
      {A B : Type 0} (m : Run A) (f : A → Run B)
      → ((cs : Commands) → merges (m cs).1 ≡ merges cs)
      → ((a : A) → AtMostOne (f a))
      → AtMostOne (m >>= f)
  AtMostOne-bind m f same k cs = elim (AtMostOne-continue (m cs).0 f k (m cs).1) [
    | inl none_more ↦ inl (none_more ∙ same cs)
    | inr (one, q) ↦ inr (one ∙ ap suc (same cs), q)
  ]

create-merges :
    (env : Outside) (c : Command) (cs : Commands)
    → merges (c ∷ cs) ≡ merges cs
    → merges (create env c cs).1 ≡ merges cs
unfolding create
create-merges env c cs h = h

module _ (env : Outside) (cfg : GitopsConfig) (f : Finding) (fix_id : String)
    (sandbox : SandboxResult) (dry_run : Bool) where
  abbrev target : Target
  target = repo_for_namespace f.namespace cfg

  -- the search for the open pull requests of this finding and this fix, by the marker in their bodies
  abbrev pub search_command : Command
  search_command =
      pr_list target.repo
        ("<!-- auto-remediate:finding_id=" <> f.finding_id <> " fix_id=" <> fix_id <> " -->")

  -- All that an automatic merge waits for.
  pub record CanMerge (cs : Commands) : Type 0 where
    pub live : dry_run || env.gitops_dry_run ≡ false
    pub not_trading : is_trading f.namespace ≡ false
    pub not_pr_only : target.policy == "pr-only" ≡ false
    pub healed : sandbox.verdict == "healed" ≡ true
    pub deterministic : is_in f.fix_class deterministic_fix_classes ≡ true
    pub allowed : is_allowed env.allowed_env f.namespace ≡ true
    pub none_open : env.open_prs cs search_command ≡ some []

  can_merge :
      (cs : Commands)
      → dry_run || env.gitops_dry_run ≡ false
      → eligible env f sandbox target ≡ true
      → env.open_prs cs search_command ≡ some []
      → CanMerge cs
  unfolding is_auto_merge_eligible
  can_merge cs live fits none_open = record {
    live = live;
    not_trading = ground (arith, fits);
    not_pr_only = ground (arith, fits);
    healed = ground (arith, fits);
    deterministic = ground (arith, fits);
    allowed = ground (arith, fits);
    none_open = none_open;
  }

  create_command-merges :
      (t : Target) (auto_merge : Bool) (cs : Commands)
      → merges (create_command env f fix_id sandbox t auto_merge ∷ cs) ≡ merges cs
  unfolding create_command
  create_command-merges t auto_merge cs = refl

  finish-AtMostOne :
      (t : Target) (auto_merge : Bool) (url : String)
      → AtMostOne (auto_merge ≡ true) (finish env f t auto_merge url)
  unfolding finish
  finish-AtMostOne t true url cs =
      elim (Bool-cases (needs_review env f t && not (t.assignee == ""))) [
        | inl assigned ↦ inr (rw assigned refl, refl)
        | inr unassigned ↦ inr (rw unassigned refl, refl)
      ]
  finish-AtMostOne t false url cs =
      elim (Bool-cases (needs_review env f t && not (t.assignee == ""))) [
        | inl assigned ↦ inl (rw assigned refl)
        | inr unassigned ↦ inl (rw unassigned refl)
      ]

  proceed-AtMostOne :
      (t : Target) (auto_merge : Bool)
      → AtMostOne (auto_merge ≡ true) (proceed env f fix_id sandbox t auto_merge none)
  unfolding proceed ensure_labels
  proceed-AtMostOne t auto_merge =
      let labels : Run Unit = ensure_labels t.repo f sandbox (extra_labels env f t auto_merge) in
      let c : Command = create_command env f fix_id sandbox t auto_merge in
      let made : Run PrResult = create env c >>= finish env f t auto_merge in
      AtMostOne-bind (auto_merge ≡ true) labels (λ done. made)
        (create_labels-merges t.repo (all_labels f sandbox (extra_labels env f t auto_merge)))
        (λ done.
          AtMostOne-bind (auto_merge ≡ true) (create env c) (finish env f t auto_merge)
            (λ cs. create-merges env c cs (create_command-merges t auto_merge cs))
            (finish-AtMostOne t auto_merge))

  proceed-existing :
      (t : Target) (auto_merge : Bool) (pr : PullRequest) (cs : Commands)
      → (merges (proceed env f fix_id sandbox t auto_merge (some pr) cs).1 ≡ merges cs)
        × (creations (proceed env f fix_id sandbox t auto_merge (some pr) cs).1 ≡ creations cs)
  unfolding proceed comment_on
  proceed-existing t auto_merge pr cs = (ground arith, ground arith)

  -- Whatever the outside answers, a call sets at most one pull request to merge by itself, and
  -- only outside dry runs and trading namespaces, where the policy allows it, after a healed
  -- sandbox, for a deterministic class of fix, in a namespace that the environment lists, and
  -- when the search in the namespace's repository found no open pull request with the marker of
  -- the finding and the fix.
  pub create_remediation_pr-merges :
      (cs : Commands)
      → (merges (create_remediation_pr env cfg f fix_id sandbox dry_run cs).1 ≡ merges cs)
        ⊎ ((merges (create_remediation_pr env cfg f fix_id sandbox dry_run cs).1 ≡ suc (merges cs))
            × CanMerge cs)
  unfolding create_remediation_pr find_existing_pr idempotency_marker
  create_remediation_pr-merges cs = elim (Bool-cases (dry_run || env.gitops_dry_run)) [
    | inl dry ↦ inl (rw dry refl)
    | inr live ↦ rw live (elim (Option-cases (env.open_prs cs search_command)) [
      | inl failed ↦ inl (rw failed refl)
      | inr (prs, listed) ↦ rw listed (by_open prs live listed)
    ])
  ]
    where
      c : Command
      c = pr_list target.repo (idempotency_marker f.finding_id fix_id)

      by_open :
          (prs : List PullRequest)
          → dry_run || env.gitops_dry_run ≡ false
          → env.open_prs cs search_command ≡ some prs
          → (merges
                (continue
                  (first_of (some prs) c)
                  (proceed env f fix_id sandbox target (eligible env f sandbox target))
                  (c ∷ cs)).1
              ≡ merges cs)
            ⊎ ((merges
                    (continue
                      (first_of (some prs) c)
                      (proceed env f fix_id sandbox target (eligible env f sandbox target))
                      (c ∷ cs)).1
                  ≡ suc (merges cs))
                × CanMerge cs)
      by_open [] live listed =
          elim (proceed-AtMostOne target (eligible env f sandbox target) (c ∷ cs)) [
            | inl none_more ↦ inl none_more
            | inr (one, fits) ↦ inr (one, can_merge cs live fits listed)
          ]
      by_open (pr ∷ prs) live listed =
          inl (proceed-existing target (eligible env f sandbox target) pr (c ∷ cs)).0

  -- While a pull request with the marker of the finding and the fix is found, a call makes no other and merges none.
  pub create_remediation_pr-existing :
      (pr : PullRequest) (prs : List PullRequest) (cs : Commands)
      → env.open_prs cs search_command ≡ some (pr ∷ prs)
      → (merges (create_remediation_pr env cfg f fix_id sandbox dry_run cs).1 ≡ merges cs)
        × (creations (create_remediation_pr env cfg f fix_id sandbox dry_run cs).1 ≡ creations cs)
  unfolding create_remediation_pr find_existing_pr idempotency_marker
  create_remediation_pr-existing pr prs cs listed =
      elim (Bool-cases (dry_run || env.gitops_dry_run)) [
        | inl dry ↦ rw dry (refl, refl)
        | inr live ↦
            rw (live, listed)
              (proceed-existing target (eligible env f sandbox target) pr
                (pr_list target.repo (idempotency_marker f.finding_id fix_id) ∷ cs))
      ]
