-- ===== src/Budgets/Analyzer.antt =====
-- `_evaluate_pdb` and `analyze`. The answers of the Kubernetes client are the record Cluster; attributes
-- that may be None are optional.
use mcp_kubernetes_platform.Prelude.{
  ℕ, Bool, true, false, String, ◌<>◌, ◌==◌, Option, none, some, List, [], ◌∷◌, ◌++◌, length, eqb,
  show, text_or, if◌then◌else◌,
}
use mcp_kubernetes_platform.Prelude.Effects.{Result, ok, raised}
use mcp_kubernetes_platform.Observer.Findings.{Severity, high, medium, low, Finding}

-- what a read gives; `missing` is the status 404, `failed` any other ApiException
pub data Read (A : Type 0) : Type 0 where
  found : A → Read A
  missing : Read A
  failed : String → Read A

pub record OwnerRef : Type 0 where
  pub kind : String
  pub name : String

pub record Selector : Type 0 where
  pub match_expressions : List String
  pub match_labels : List (String × String)

-- a budget: its metadata, `spec.selector` and `status.disruptions_allowed`, where there are such
pub record Budget : Type 0 where
  pub namespace : Option String
  pub name : Option String
  pub uid : Option String
  pub selector : Option Selector
  pub disruptions_allowed : Option ℕ

-- A pod is the list of its owner references, which is empty where it has none.
pub record Cluster : Type 0 where
  pub list_pods : String → String → Result String (List (List OwnerRef))
  pub read_replica_set : String → String → Read (List OwnerRef)
  pub read_deployment : String → String → Read Unit
  pub read_stateful_set : String → String → Read Unit

unfoldable pub label_selector : List (String × String) → String
label_selector [] = ""
label_selector ((k, v) ∷ []) = k <> "=" <> v
label_selector ((k, v) ∷ l ∷ ls) = k <> "=" <> v <> "," <> label_selector (l ∷ ls)

-- a finding about a budget
unfoldable pub about : String → Budget → Severity → String → String → String → String → Finding
about ns pdb severity category snapshot fix hypothesis = record {
  resource = record {
    kind = "PodDisruptionBudget";
    namespace = ns;
    name = text_or pdb.name "";
    uid = text_or pdb.uid "";
  };
  severity = severity;
  category = category;
  evidence = record { events = []; log_tail = ""; status_snapshot = snapshot };
  suggested_fix_class = fix;
  root_cause_hypothesis = hypothesis;
}

unfoldable pub selector_mismatch : String → Budget → Finding
selector_mismatch ns pdb =
    about ns pdb medium "selector_mismatch" "{\"detail\": \"selector matches no pods\"}"
      "PDBSelectorRemediator" ("PDB " <> text_or pdb.name "" <> " selector matches no live pods")

unfoldable pub eviction_blocked : String → Budget → ℕ → Finding
eviction_blocked ns pdb pods =
    about ns pdb high "eviction_blocked"
      ("{\"detail\": \"disruptions_allowed=0\", \"pods\": " <> show pods <> "}")
      "PDBEvictionRemediator"
      ("PDB " <> text_or pdb.name "" <> " blocks all evictions (disruptions_allowed=0)")

unfoldable pub no_owner_workload : String → Budget → Finding
no_owner_workload ns pdb =
    about ns pdb low "no_owner_workload" "{\"detail\": \"owner workload not found\"}"
      "PDBOrphanRemediator"
      ("PDB " <> text_or pdb.name "" <> " matched pods have no live owner workload")

-- `not owner_missing` after a read: it was `seen` before, and `next` goes on after a workload is found
abbrev pub after_read : {A : Type 0} → Read A → Bool → (A → Result String Bool) → Result String Bool
after_read (found a) seen next = next a
after_read missing seen next = ok seen
after_read (failed e) seen next = raised e

module _ (k : Cluster) (ns : String) where
  -- the owners of a replica set
  unfoldable pub check_owners : List OwnerRef → Bool → Result String Bool
  check_owners [] seen = ok seen
  check_owners (o ∷ os) seen =
      let found_one = check_owners os true in
      let other = check_owners os seen in
      if o.kind == "Deployment"
      then after_read (k.read_deployment o.name ns) seen (λ u. found_one)
      else other

  unfoldable pub check_ref : OwnerRef → Bool → Result String Bool
  check_ref r seen =
      if r.kind == "ReplicaSet"
      then after_read (k.read_replica_set r.name ns) seen (λ os. check_owners os seen)
      else if r.kind == "StatefulSet"
      then after_read (k.read_stateful_set r.name ns) seen (λ u. ok true)
      else if r.kind == "Deployment"
      then after_read (k.read_deployment r.name ns) seen (λ u. ok true)
      else ok seen

  abbrev pub and_then : Result String Bool → (Bool → Result String Bool) → Result String Bool
  and_then (raised e) f = raised e
  and_then (ok b) f = f b

  unfoldable pub check_refs : List OwnerRef → Bool → Result String Bool
  check_refs [] seen = ok seen
  check_refs (r ∷ rs) seen = and_then (check_ref r seen) (check_refs rs)

  unfoldable pub check_pods : List (List OwnerRef) → Bool → Result String Bool
  check_pods [] seen = ok seen
  check_pods (p ∷ ps) seen = and_then (check_refs p seen) (check_pods ps)

unfoldable pub blocked : Option ℕ → Bool
blocked none = false
blocked (some n) = eqb n 0

-- the findings when the search for an owner is done
unfoldable pub report : String → Budget → ℕ → Result String Bool → Result String (List Finding)
report ns pdb pods (raised e) = raised e
report ns pdb pods (ok owned) = ok (
    (if blocked pdb.disruptions_allowed then eviction_blocked ns pdb pods ∷ [] else [])
    ++ (if owned then [] else no_owner_workload ns pdb ∷ []))

module _ (k : Cluster) where
  unfoldable pub evaluate_pods :
      String → Budget → Result String (List (List OwnerRef)) → Result String (List Finding)
  evaluate_pods ns pdb (raised e) = raised e
  evaluate_pods ns pdb (ok []) = ok (selector_mismatch ns pdb ∷ [])
  evaluate_pods ns pdb (ok (p ∷ ps)) =
      report ns pdb (length (p ∷ ps)) (check_pods k ns (p ∷ ps) false)

  -- a selector with match expressions is skipped
  unfoldable pub selected :
      String → Budget → List String → List (String × String) → Result String (List Finding)
  selected ns pdb [] labels = evaluate_pods ns pdb (k.list_pods ns (label_selector labels))
  selected ns pdb (e ∷ es) labels = ok []

  unfoldable pub select : String → Budget → Option Selector → Result String (List Finding)
  select ns pdb none = evaluate_pods ns pdb (ok [])
  select ns pdb (some s) = selected ns pdb s.match_expressions s.match_labels

  unfoldable pub evaluate_pdb : Budget → Result String (List Finding)
  evaluate_pdb pdb = select (text_or pdb.namespace "default") pdb pdb.selector

  abbrev pub extend :
      Result String (List Finding) → Result String (List Finding) → Result String (List Finding)
  extend (raised e) more = raised e
  extend (ok fs) (raised e) = raised e
  extend (ok fs) (ok gs) = ok (fs ++ gs)

  -- the loop of `analyze`
  unfoldable pub analyze : List Budget → Result String (List Finding)
  analyze [] = ok []
  analyze (pdb ∷ pdbs) = extend (evaluate_pdb pdb) (analyze pdbs)
