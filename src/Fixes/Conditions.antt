-- ===== src/Fixes/Conditions.antt =====
-- `applies_to` of the ten handlers, and the registry.
use mcp_kubernetes_platform.Prelude.{
  mentions, mentions_lower, Bool, false, ◌&&◌, String, ◌==◌, Option, none, some, List, [], ◌∷◌, eqb,
  ltb, get_or,
}
use mcp_kubernetes_platform.Fixes.Data.{Finding}

-- `raw.get(k) == s`
abbrev pub equals : Option String → String → Bool
equals none s = false
equals (some r) s = r == s

abbrev pub image_applies : Finding → Bool
image_applies f =
    f.behavior == "image_tag_migration_remediation" && equals f.raw.reason "ImagePullBackOff"

abbrev pub probe_applies : Finding → Bool
probe_applies f = f.behavior == "probe_tuning_remediation"

abbrev pub orphan_applies : Finding → Bool
orphan_applies f = f.behavior == "orphan_job_remediation" && f.resource_kind == "Job"

abbrev pub memory_applies : Finding → Bool
memory_applies f = equals f.raw.reason "OOMKilled"

abbrev pub volume_applies : Finding → Bool
volume_applies f =
    f.resource_kind == "PersistentVolumeClaim"
    && get_or f.raw.storage_class_allow_expansion false
    && ltb 85 (get_or f.raw.usage_percent 0)

abbrev pub dns_applies : Finding → Bool
dns_applies f = f.behavior == "dns_resolution_failure"

abbrev pub selector_applies : Finding → Bool
selector_applies f =
    equals f.raw.reason "Unschedulable" && mentions "MatchNodeSelector" (get_or f.raw.message "")

abbrev pub toleration_applies : Finding → Bool
toleration_applies f =
    equals f.raw.reason "Unschedulable"
    && mentions_lower "untolerated taint" (get_or f.raw.message "")

abbrev pub metrics_applies : Finding → Bool
metrics_applies f =
    f.resource_kind == "HorizontalPodAutoscaler"
    && mentions_lower "unable to get metrics" (get_or f.raw.message "")

abbrev pub budget_applies : Finding → Bool
budget_applies f =
    f.resource_kind == "PodDisruptionBudget" && eqb (get_or f.raw.disruptions_allowed 0) 0

pub data Handler : Type 0 where
  image_tag_migration : Handler
  probe_tuning : Handler
  orphan_job_cleanup : Handler
  oom_killed_restart_with_bump_proposal : Handler
  pvc_resize : Handler
  dns_config_fix : Handler
  node_selector_mismatch : Handler
  toleration_missing : Handler
  hpa_enable_metrics_server : Handler
  pdb_too_strict : Handler

unfoldable pub applies_to : Handler → Finding → Bool
applies_to image_tag_migration f = image_applies f
applies_to probe_tuning f = probe_applies f
applies_to orphan_job_cleanup f = orphan_applies f
applies_to oom_killed_restart_with_bump_proposal f = memory_applies f
applies_to pvc_resize f = volume_applies f
applies_to dns_config_fix f = dns_applies f
applies_to node_selector_mismatch f = selector_applies f
applies_to toleration_missing f = toleration_applies f
applies_to hpa_enable_metrics_server f = metrics_applies f
applies_to pdb_too_strict f = budget_applies f

abbrev pub registry : List Handler
registry =
    image_tag_migration ∷ probe_tuning ∷ orphan_job_cleanup ∷ oom_killed_restart_with_bump_proposal
    ∷ pvc_resize ∷ dns_config_fix ∷ node_selector_mismatch ∷ toleration_missing
    ∷ hpa_enable_metrics_server ∷ pdb_too_strict ∷ []
