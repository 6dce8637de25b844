-- ===== src/Pairs/Issues.antt =====
-- Pairs, the test on their emission, and the issue that is filed. Durations are the texts that Python
-- prints for them; `json.dumps` is an argument.
use Prim.Native.Char.{code}
use mcp_kubernetes_platform.Prelude.{
  ℕ, suc, Bool, true, false, not, String, ◌<>◌, ◌==◌, Option, none, some, List, [], ◌∷◌, map, is_in,
  is_space, show, text_or, get_or, if◌then◌else◌,
}
use mcp_kubernetes_platform.Prelude.Effects.{Result, ok, raised}
use mcp_kubernetes_platform.Pairs.Redact.{redact}

pub record RemediationAction : Type 0 where
  pub action_type : String
  pub command : String
  pub outcome : String
  pub duration_seconds : String

-- `probe_state` is a dict of texts
pub record DpoPairContext : Type 0 where
  pub events : List String
  pub logs : List String
  pub probe_state : List (String × String)
  pub namespace : String
  pub kind : String

pub record DpoPairMeta : Type 0 where
  pub sandbox_verified : Bool
  pub prod_applied : Bool
  pub time_to_fix_seconds : String
  pub session_id : String
  pub remediator_version : String

pub record DpoPair : Type 0 where
  pub prompt : String
  pub chosen : RemediationAction
  pub rejected : List RemediationAction
  pub context : DpoPairContext
  pub verification : String
  pub meta : DpoPairMeta

abbrev pub trading_namespaces : List String
trading_namespaces = "brightflow-live" ∷ "ibkr-real-money-gateway" ∷ "daxxon-trading" ∷ []

unfoldable pub redact_action : RemediationAction → RemediationAction
redact_action a = record a { command = redact a.command }

unfoldable pub redact_pair : DpoPair → DpoPair
redact_pair p = record p {
  chosen = redact_action p.chosen;
  rejected = map redact_action p.rejected;
  context = record p.context {
    events = map redact p.context.events;
    logs = map redact p.context.logs;
  };
  verification = redact p.verification;
}

-- DpoEmitSkipped, by its reason
pub data DpoEmitSkipped : Type 0 where
  in_trading : String → DpoEmitSkipped
  no_rejected : DpoEmitSkipped
  not_done : DpoEmitSkipped
  is_dry_run : DpoEmitSkipped

abbrev pub is_empty : List RemediationAction → Bool
is_empty [] = true
is_empty (a ∷ rest) = false

unfoldable pub check_emit_allowed : DpoPair → Bool → Bool → Result DpoEmitSkipped Unit
check_emit_allowed p dry_run session_done =
    if is_in p.context.namespace trading_namespaces
    then raised (in_trading p.context.namespace)
    else if is_empty p.rejected
    then raised no_rejected
    else if not session_done
    then raised not_done
    else if dry_run
    then raised is_dry_run
    else ok tt

-- `sep.join`
abbrev pub join : String → List String → String
join sep [] = ""
join sep (s ∷ []) = s
join sep (s ∷ t ∷ ss) = s <> sep <> join sep (t ∷ ss)

unfoldable pub attempt : ℕ → RemediationAction → String
attempt i r =
    "### Attempt "
    <> show i
    <> "\n\n- **type:** "
    <> r.action_type
    <> "\n- **command:** `"
    <> r.command
    <> "`\n- **outcome:** "
    <> r.outcome
    <> "\n- **duration_seconds:** "
    <> r.duration_seconds
    <> "\n"

unfoldable pub attempts : ℕ → List RemediationAction → List String
attempts i [] = []
attempts i (r ∷ rs) = attempt i r ∷ attempts (suc i) rs

unfoldable pub render_rejected : List RemediationAction → String
render_rejected rejected = join "\n" (attempts 1 rejected)

module _ (dumps_state : List (String × String) → String) (dumps_meta : DpoPairMeta → String) where
  -- `_BODY_TEMPLATE.format`
  unfoldable pub body_of : DpoPair → String
  body_of safe =
      "<!-- dpo-pair-schema-version: 1 -->\n\n## Prompt\n\n```\n"
      <> safe.prompt
      <> "\n```\n\n## Chosen Action\n\n- **type:** "
      <> safe.chosen.action_type
      <> "\n- **command:** `"
      <> safe.chosen.command
      <> "`\n- **outcome:** "
      <> safe.chosen.outcome
      <> "\n- **duration_seconds:** "
      <> safe.chosen.duration_seconds
      <> "\n\n## Rejected Actions\n\n"
      <> render_rejected safe.rejected
      <> "\n\n## Context\n\n**Namespace:** "
      <> safe.context.namespace
      <> "  \n**Kind:** "
      <> safe.context.kind
      <> "  \n**Probe state:** "
      <> dumps_state safe.context.probe_state
      <> "\n\n### Events\n\n```\n"
      <> join "\n" safe.context.events
      <> "\n```\n\n### Logs (at detection)\n\n```\n"
      <> join "\n" safe.context.logs
      <> "\n```\n\n## Verification (post-heal kubectl output)\n\n```\n"
      <> safe.verification
      <> "\n```\n\n## Meta\n\n```json\n"
      <> dumps_meta safe.meta
      <> "\n```\n"

  unfoldable pub render_issue_body : DpoPair → String
  render_issue_body pair = body_of (redact_pair pair)

-- `rejected[-1].outcome`, or "unknown"
abbrev pub last_outcome : List RemediationAction → String
last_outcome [] = "unknown"
last_outcome (r ∷ []) = r.outcome
last_outcome (r ∷ s ∷ rs) = last_outcome (s ∷ rs)

-- `base_labels` and those of the pair
unfoldable pub build_labels : DpoPair → List String
build_labels p =
    "dpo-pair"
    ∷ "auto-remediation"
    ∷ "corey-coder-ingest"
    ∷ ("ns/" <> p.context.namespace)
    ∷ ("kind/" <> p.context.kind)
    ∷ []

-- `prompt.split()[0]`, an IndexError where the prompt is white space
abbrev pub word : String → String
word String.[] = ""
word (String.◌∷◌ c s) = let rest = word s in if is_space (code c) then "" else String.◌∷◌ c rest

abbrev pub first_word : String → Option String
first_word String.[] = none
first_word (String.◌∷◌ c s) =
    let later = first_word s in
    let here = word s in if is_space (code c) then later else some (String.◌∷◌ c here)

pub data TitleError : Type 0 where
  index_error : TitleError

unfoldable pub title_for : DpoPair → Option String → Result TitleError String
title_for p none = raised index_error
title_for p (some workload) = ok (
    "[DPO] "
    <> p.context.namespace
    <> "/"
    <> workload
    <> ": "
    <> last_outcome p.rejected
    <> " -> "
    <> p.chosen.action_type)

unfoldable pub build_issue_title : DpoPair → Result TitleError String
build_issue_title p = title_for p (if p.prompt == "" then some "unknown" else first_word p.prompt)

abbrev pub default_repo : String
default_repo = "AlbrightLaboratories/mcp-kubernetes-platform-engineer"

-- the mapping in config/dpo.yaml
pub record DpoConfig : Type 0 where
  pub dpo_issue_repo : Option String
  pub dpo_enabled : Option Bool

-- The file, if it is found, and GITHUB_REPOSITORY.
unfoldable pub resolve_dpo_repo : Option DpoConfig → Option String → String × Bool
resolve_dpo_repo none env = (get_or env default_repo, true)
resolve_dpo_repo (some cfg) env =
    (text_or cfg.dpo_issue_repo (get_or env default_repo), get_or cfg.dpo_enabled true)
