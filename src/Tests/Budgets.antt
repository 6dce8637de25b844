-- ===== src/Tests/Budgets.antt =====
-- Runs of the analyzer of disruption budgets.
use mcp_kubernetes_platform.Prelude.{◌≡◌, refl, none, some, [], ◌∷◌}
use mcp_kubernetes_platform.Prelude.Effects.{ok}
use mcp_kubernetes_platform.Budgets.Analyzer.{
  found, missing, OwnerRef, Selector, Budget, Cluster, label_selector, eviction_blocked,
  no_owner_workload, check_owners, check_ref, check_refs, check_pods, blocked, report,
  evaluate_pods, selected, select, evaluate_pdb,
}
use mcp_kubernetes_platform.Budgets.Findings.{expected, evaluate_pdb-expected}

abbrev replica_set : OwnerRef
replica_set = record { kind = "ReplicaSet"; name = "shop-1" }

-- the deployment of the replica set is gone
abbrev cluster : Cluster
cluster = record {
  list_pods = λ ns l. ok ((replica_set ∷ []) ∷ []);
  read_replica_set = λ n ns. found (record { kind = "Deployment"; name = "shop" } ∷ []);
  read_deployment = λ n ns. missing;
  read_stateful_set = λ n ns. missing;
}

abbrev selector : Selector
selector = record { match_expressions = []; match_labels = ("app", "shop") ∷ [] }

abbrev budget : Budget
budget = record {
  namespace = some "web";
  name = some "shop";
  uid = none;
  selector = some selector;
  disruptions_allowed = some 0;
}

both :
    evaluate_pdb cluster budget
    ≡ ok (eviction_blocked "web" budget 1 ∷ no_owner_workload "web" budget ∷ [])
unfolding evaluate_pdb select selected evaluate_pods report blocked check_pods check_refs check_ref
    check_owners
both = refl

evaluate_pdb-expected_example :
    (eviction_blocked "web" budget 1 ∷ no_owner_workload "web" budget ∷ [])
    ≡ expected cluster "web" budget ((replica_set ∷ []) ∷ [])
evaluate_pdb-expected_example =
    evaluate_pdb-expected cluster budget selector ((replica_set ∷ []) ∷ [])
      (eviction_blocked "web" budget 1 ∷ no_owner_workload "web" budget ∷ []) refl refl refl both

labels : label_selector (("a", "1") ∷ ("b", "2") ∷ []) ≡ "a=1,b=2"
unfolding label_selector
labels = refl
