-- ===== src/Scaling/Analyzer.antt =====
-- `_evaluate_hpa`. Times are microseconds; the JSON text of a detail is an argument.
use mcp_kubernetes_platform.Prelude.{
  begins, ℕ, ◌+◌, ◌*◌, Bool, true, ◌&&◌, ◌||◌, not, String, codes, ◌<>◌, ◌==◌, Option, none, some,
  List, [], ◌∷◌, ◌++◌, any, eqb, leb, ltb, show, text_or, if◌then◌else◌,
}
use mcp_kubernetes_platform.Observer.Findings.{Severity, high, medium, Finding}
use mcp_kubernetes_platform.Budgets.Analyzer.{Read, found, missing, failed}

pub record HpaSpec : Type 0 where
  pub max_replicas : ℕ
  pub min_replicas : Option ℕ
  pub target_name : Option String

pub record HpaCondition : Type 0 where
  pub type : String
  pub status : String
  pub reason : Option String

pub record HpaStatus : Type 0 where
  pub current_replicas : Option ℕ
  pub last_scale_time : Option ℕ
  pub conditions : List HpaCondition

pub record Hpa : Type 0 where
  pub namespace : Option String
  pub name : Option String
  pub uid : Option String
  pub spec : Option HpaSpec
  pub status : Option HpaStatus

abbrev pub minutes : ℕ → ℕ
minutes n = n * 60000000

abbrev pub max_of : Option HpaSpec → ℕ
max_of none = 0
max_of (some s) = s.max_replicas

-- `n` where it is a number other than 0, and else `d`
abbrev pub number_or : Option ℕ → ℕ → ℕ
number_or none d = d
number_or (some n) d = if eqb n 0 then d else n

abbrev pub min_of : Option HpaSpec → ℕ
min_of none = 1
min_of (some s) = number_or s.min_replicas 1

abbrev pub target_of : Option HpaSpec → String
target_of none = ""
target_of (some s) = text_or s.target_name ""

abbrev pub current_of : Option HpaStatus → ℕ
current_of none = 0
current_of (some s) = number_or s.current_replicas 0

abbrev pub last_scale_of : Option HpaStatus → Option ℕ
last_scale_of none = none
last_scale_of (some s) = s.last_scale_time

abbrev pub conditions_of : Option HpaStatus → List HpaCondition
conditions_of none = []
conditions_of (some s) = s.conditions

-- `(now - last_scale) >= limit`; true where it never scaled
unfoldable pub long_ago : ℕ → ℕ → Option ℕ → Bool
long_ago now limit none = true
long_ago now limit (some t) = leb (t + limit) now

unfoldable pub has_no_metrics : HpaCondition → Bool
has_no_metrics c =
    c.type == "ScalingActive"
    && (c.status == "False" || begins (codes "FailedGet") (codes (text_or c.reason "")))

-- `dumps` is json.dumps of the dict with a detail.
module _ (dumps : String → String) (hpa : Hpa) where
  unfoldable pub about_hpa : Severity → String → String → String → String → Finding
  about_hpa severity category detail fix hypothesis = record {
    resource = record {
      kind = "HorizontalPodAutoscaler";
      namespace = text_or hpa.namespace "default";
      name = text_or hpa.name "";
      uid = text_or hpa.uid "";
    };
    severity = severity;
    category = category;
    evidence = record { events = []; log_tail = ""; status_snapshot = dumps detail };
    suggested_fix_class = fix;
    root_cause_hypothesis = "HPA " <> text_or hpa.name "" <> hypothesis;
  }

  unfoldable pub target_missing : String → Finding
  target_missing target =
      about_hpa high "target_missing" ("Deployment " <> target <> " not found")
        "HPAOrphanRemediator" (" target Deployment " <> target <> " missing")

  unfoldable pub no_metrics : String → Finding
  no_metrics reason =
      about_hpa high "no_metrics" (text_or (some reason) "ScalingActive=False")
        "HPAMetricsRemediator" (" cannot get metrics: " <> reason)

  unfoldable pub capped_at_max : ℕ → ℕ → Finding
  capped_at_max current max_r =
      about_hpa high "capped_at_max" ("current=" <> show current <> " == max=" <> show max_r)
        "HPACeilingRemediator" (" capped at maxReplicas=" <> show max_r)

  unfoldable pub never_scaling : ℕ → ℕ → Finding
  never_scaling current min_r =
      about_hpa medium "never_scaling"
        ("current=" <> show current <> " == min=" <> show min_r <> ", stale")
        "HPAThresholdRemediator" (" never scaled up (stuck at min=" <> show min_r <> ")")

  unfoldable pub metrics_findings : List HpaCondition → List Finding
  metrics_findings [] = []
  metrics_findings (c ∷ cs) =
      let rest = metrics_findings cs in
      if has_no_metrics c then no_metrics (text_or c.reason "") ∷ rest else rest

  -- `now` is read for the cap test, and `later` for the stale test.
  module _ (now later cap_threshold_minutes stale_scale_hours : ℕ) where
    unfoldable pub is_capped : Bool
    is_capped =
        eqb (current_of hpa.status) (max_of hpa.spec)
        && ltb 0 (max_of hpa.spec)
        && long_ago now (minutes cap_threshold_minutes) (last_scale_of hpa.status)

    unfoldable pub with_cap : List Finding → List Finding
    with_cap fs =
        if is_capped then fs ++ capped_at_max (current_of hpa.status) (max_of hpa.spec) ∷ [] else fs

    unfoldable pub is_stale : List Finding → Bool
    is_stale fs =
        not (eqb (min_of hpa.spec) (max_of hpa.spec))
        && eqb (current_of hpa.status) (min_of hpa.spec)
        && not (any (λ f. f.category == "no_metrics") fs)
        && long_ago later (minutes (stale_scale_hours * 60)) (last_scale_of hpa.status)

    unfoldable pub with_stale : List Finding → List Finding
    with_stale fs =
        if is_stale fs
        then fs ++ never_scaling (current_of hpa.status) (min_of hpa.spec) ∷ []
        else fs

    unfoldable pub checks : List Finding
    checks = with_stale (with_cap (metrics_findings (conditions_of hpa.status)))

    -- with the answer to the read of the target; an error other than 404 is passed over
    unfoldable pub evaluate_hpa : Read Unit → List Finding
    evaluate_hpa (found u) = checks
    evaluate_hpa missing = target_missing (target_of hpa.spec) ∷ []
    evaluate_hpa (failed e) = checks
