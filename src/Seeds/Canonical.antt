-- ===== src/Seeds/Canonical.antt =====
-- The constant `CANONICAL_TASKS`, in two halves.
use mcp_kubernetes_platform.Prelude.{ℕ, String, List, [], ◌∷◌, ◌++◌}
use mcp_kubernetes_platform.Seeds.Plan.{PlannedTask}

abbrev plan : ℕ → String → String → List ℕ → List String → PlannedTask
plan id section title blockers paths = record {
  id = id;
  prd_section = section;
  title = title;
  blockers = blockers;
  deliverable_paths = paths;
}

abbrev pub early_tasks : List PlannedTask
early_tasks =
    plan 1 "09" "Implement BaseAnalyzer + Finding dataclass" ([])
      ("src/analyzers/base.py" ∷ "tests/analyzers/test_base.py" ∷ [])
    ∷ plan 2 "09" "Implement PodAnalyzer" (1 ∷ [])
        ("src/analyzers/pod_analyzer.py" ∷ "tests/analyzers/test_pod_analyzer.py" ∷ [])
    ∷ plan 3 "10" "Implement DeploymentAnalyzer" (1 ∷ []) (
        "src/analyzers/deployment_analyzer.py" ∷ "tests/analyzers/test_deployment_analyzer.py" ∷ [])
    ∷ plan 4 "11" "Implement NodeAnalyzer" (1 ∷ [])
        ("src/analyzers/node_analyzer.py" ∷ "tests/analyzers/test_node_analyzer.py" ∷ [])
    ∷ plan 5 "12" "Implement ServiceAnalyzer" (1 ∷ [])
        ("src/analyzers/service_analyzer.py" ∷ "tests/analyzers/test_service_analyzer.py" ∷ [])
    ∷ plan 6 "13" "Implement PVCAnalyzer" (1 ∷ [])
        ("src/analyzers/pvc_analyzer.py" ∷ "tests/analyzers/test_pvc_analyzer.py" ∷ [])
    ∷ plan 7 "14" "Implement IngressAnalyzer" (1 ∷ [])
        ("src/analyzers/ingress_analyzer.py" ∷ "tests/analyzers/test_ingress_analyzer.py" ∷ [])
    ∷ plan 8 "15" "Implement CronJobAnalyzer" (1 ∷ [])
        ("src/analyzers/cronjob_analyzer.py" ∷ "tests/analyzers/test_cronjob_analyzer.py" ∷ [])
    ∷ plan 9 "16" "Implement NetworkPolicyAnalyzer" (1 ∷ []) (
        "src/analyzers/network_policy_analyzer.py"
        ∷ "tests/analyzers/test_network_policy_analyzer.py" ∷ [])
    ∷ plan 10 "03" "Implement RestartFirstLadder remediator" ([])
        ("src/remediators/restart_ladder.py" ∷ "tests/remediators/test_restart_ladder.py" ∷ [])
    ∷ plan 11 "17" "Implement deterministic remediation table + dispatch" (1 ∷ 10 ∷ [])
        ("src/remediators/table.py" ∷ "tests/remediators/test_table.py" ∷ [])
    ∷ plan 12 "04" "Implement five-minute watchdog asyncio task" (2 ∷ 10 ∷ [])
        ("src/watchdog.py" ∷ "tests/test_watchdog.py" ∷ [])
    ∷ []

abbrev pub late_tasks : List PlannedTask
late_tasks =
    plan 13 "05" "Implement DPO pair extraction" (2 ∷ 11 ∷ [])
      ("src/dpo_extractor.py" ∷ "tests/test_dpo_extractor.py" ∷ [])
    ∷ plan 14 "06" "Implement trading namespace hardblock" ([])
        ("src/hardblock.py" ∷ "tests/test_hardblock.py" ∷ "src/config.py" ∷ [])
    ∷ plan 15 "18" "Implement vcluster sandbox execution pipeline" (11 ∷ [])
        ("src/sandbox.py" ∷ "tests/test_sandbox.py" ∷ [])
    ∷ plan 16 "19" "Implement RBAC split (read/write service accounts)" ([])
        ("src/rbac.py" ∷ "k8s/rbac.yaml" ∷ "tests/test_rbac.py" ∷ [])
    ∷ plan 17 "20" "Implement CI/CD workflow (ci.yml + image pinning)" ([])
        (".github/workflows/ci.yml" ∷ "k8s/deployment.yaml" ∷ [])
    ∷ plan 18 "21" "Implement audit log (JSONL append-only)" (14 ∷ 16 ∷ [])
        ("src/audit_log.py" ∷ "tests/test_audit_log.py" ∷ [])
    ∷ plan 19 "25" "Implement WorklistDB + atomic claim" ([])
        ("src/worklist.py" ∷ "src/worklist_seed.py" ∷ "tests/test_worklist.py" ∷ [])
    ∷ plan 20 "08" "Implement event stream watcher" (2 ∷ [])
        ("src/watchers/event_watcher.py" ∷ "tests/watchers/test_event_watcher.py" ∷ [])
    ∷ plan 21 "07" "Implement GitOps PR generation" (11 ∷ 15 ∷ [])
        ("src/gitops.py" ∷ "tests/test_gitops.py" ∷ [])
    ∷ plan 22 "02" "Implement finding deduplication" (1 ∷ [])
        ("src/dedup.py" ∷ "tests/test_dedup.py" ∷ [])
    ∷ plan 23 "D0" "Wire-up: seed worklist from PRD task table" (19 ∷ [])
        ("scripts/seed_worklist.py" ∷ [])
    ∷ plan 24 "D1" "Wire-up: plug analyzers into mcp_server.py dispatch"
        (2 ∷ 3 ∷ 4 ∷ 5 ∷ 6 ∷ 7 ∷ 8 ∷ 9 ∷ 11 ∷ 12 ∷ 14 ∷ 16 ∷ 18 ∷ 20 ∷ 22 ∷ [])
        ("src/mcp_server.py" ∷ [])
    ∷ plan 25 "22" "Implement acceptance-criteria gate (done_check.py)" (17 ∷ 24 ∷ [])
        ("src/done_check.py" ∷ "tests/test_done_check.py" ∷ [])
    ∷ []

abbrev pub canonical_tasks : List PlannedTask
canonical_tasks = early_tasks ++ late_tasks
