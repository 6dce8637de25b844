-- ===== src/Observer/Findings.antt =====
-- src/analyzers/base.py: findings and `run_safe`. SHA-256 is an argument.
use mcp_kubernetes_platform.Prelude.{
  Bool, true, false, String, ◌<>◌, List, [], ◌∷◌, is_in, if◌then◌else◌,
}
use mcp_kubernetes_platform.Prelude.Effects.{Result, ok, raised}
use mcp_kubernetes_platform.Gitops.Texts.{take_text}

pub data Severity : Type 0 where
  critical : Severity
  high : Severity
  medium : Severity
  low : Severity
  info : Severity

pub record ResourceRef : Type 0 where
  pub kind : String
  pub namespace : String
  pub name : String
  pub uid : String

pub record Evidence : Type 0 where
  pub events : List String
  pub log_tail : String
  pub status_snapshot : String

pub record Finding : Type 0 where
  pub resource : ResourceRef
  pub severity : Severity
  pub category : String
  pub evidence : Evidence
  pub suggested_fix_class : String
  pub root_cause_hypothesis : String

module _ (hexdigest : String → String) where
  unfoldable pub fingerprint : Finding → String
  fingerprint f = take_text 16 (
      hexdigest (
        f.resource.kind <> "/" <> f.resource.namespace <> "/" <> f.resource.name <> "/"
        <> f.category))

  -- the loop of `run_safe`, with the set `seen` as a list
  unfoldable pub dedup : List String → List Finding → List Finding
  dedup seen [] = []
  dedup seen (f ∷ fs) =
      let fp = fingerprint f in
      let skipped = dedup seen fs in
      let added = dedup (fp ∷ seen) fs in if is_in fp seen then skipped else f ∷ added

  -- The analyzer: what `pre_check` answers and what `analyze` returns, each of which may raise. Only
  -- the second is caught.
  unfoldable pub run_safe :
      Result String Bool → Result String (List Finding) → Result String (List Finding)
  run_safe (raised e) findings = raised e
  run_safe (ok false) findings = ok []
  run_safe (ok true) (raised e) = ok []
  run_safe (ok true) (ok findings) = ok (dedup [] findings)
