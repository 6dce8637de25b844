-- ===== src/Caches/Models.antt =====
-- The data of src/auto_remediate/nim_models.py.
use mcp_kubernetes_platform.Prelude.{ℕ, Bool, String, ◌==◌, Option, none, some, List, if◌then◌else◌}

pub data FixKind : Type 0 where
  kubectl_patch : FixKind
  manifest_diff : FixKind
  rollout_restart : FixKind
  scale : FixKind
  label_edit : FixKind
  unknown : FixKind

-- `kind.value`
unfoldable pub value_of : FixKind → String
value_of kubectl_patch = "kubectl_patch"
value_of manifest_diff = "manifest_diff"
value_of rollout_restart = "rollout_restart"
value_of scale = "scale"
value_of label_edit = "label_edit"
value_of unknown = "unknown"

-- `FixKind(value)`; `none` is the ValueError
unfoldable pub fix_kind : String → Option FixKind
fix_kind v =
    if v == "kubectl_patch"
    then some kubectl_patch
    else if v == "manifest_diff"
    then some manifest_diff
    else if v == "rollout_restart"
    then some rollout_restart
    else if v == "scale"
    then some scale
    else if v == "label_edit"
    then some label_edit
    else if v == "unknown"
    then some unknown
    else none

pub record Finding : Type 0 where
  pub component_id : String
  pub kind : String
  pub severity : String
  pub evidence : String
  pub diagnosis : String
  pub fix_class : String
  pub proposed_fix : String
  pub schema_version : ℕ

pub record FixCandidate : Type 0 where
  pub kind : FixKind
  pub command_or_diff : String
  pub rationale : String
  pub rank : ℕ
  pub source : String

pub record Explanation : Type 0 where
  pub finding_hash : String
  pub summary : String
  pub fix_candidates : List FixCandidate
  pub raw_llm_text : Option String
  pub from_cache : Bool
