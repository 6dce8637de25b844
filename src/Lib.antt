-- ===== src/Lib.antt =====
-- Verification of mcp-kubernetes-platform-engineer: the parts that decide when the platform may act on
-- a Kubernetes cluster, and what it then does.
--
--   Safety     src/safety_gate.py, src/safety_config.py and src/audit.py: the gate in front of every
--              mutating operation, with its audit record. `check` is SafetyGate.check, `categorize`
--              SafetyGate._categorize, `log_gate_decision` AuditLog.log_gate_decision. Safety/Glob is
--              Python's fnmatch, which the gate calls with the patterns of its configuration.
--   Ladder     src/auto_remediate/remediation_ladder.py: a session goes through a restart, a watch, an
--              analysis and a fix. Ladder/Types has the data and the record `Outside` of what the
--              Kubernetes client, the clocks and uuid4 answer, Ladder/Eligibility the pure helpers and
--              the namespace circuit breaker, Ladder/Methods and Ladder/Watch the methods of
--              RemediationLadder, Ladder/Driver `detect` and `advance`. A method acts on a session and
--              the history of calls made; what it wrote before it raised stays written.
--   Worklist   src/worklist.py: the tasks that agents claim and the phases of an audit run. The tables
--              are lists of rows (Worklist/Tables); Worklist/Tasks has the task methods of WorklistDB,
--              Worklist/Runs those of the audit runs. A statement of SQLite is one step.
--   Guards     src/auto_remediate/namespace_guard.py and src/auto_remediate/rbac_identities.py: the guard
--              on namespaces and the eligibility for the applier identity.
--   Watchdog   src/auto_remediate/watchdog.py: the watch on one pod after a remediation. Watchdog/Checks
--              has the helpers, Watchdog/Loop `run_watchdog` with its two tasks.
--   Orphans    src/analyzers/orphan_job_cleaner.py: the search for jobs whose CronJob is gone, and
--              their cleanup (Orphans/Cleaner).
--   Seeds      src/worklist_seed.py: the canonical tasks (Seeds/Canonical) and `topological_sort`
--              (Seeds/Plan), with the dicts as functions on the ids.
--   Observer   src/analyzers/base.py (Observer/Findings: findings and `run_safe`) and
--              src/auto_remediate/runtime.py (Observer/Loop: `_process_findings` with its window and
--              `_run_loop`). SHA-256 and `repr` are arguments.
--   Fixes      src/auto_remediate/deterministic_remediation.py: Fixes/Conditions has `applies_to`,
--              Fixes/Handlers the fixes of the ten handlers and `dispatch`. The keys of the dicts
--              `raw` and `k8s_state` are optional fields; numbers are natural, and the sizes that
--              the code computes on doubles are arguments.
--   Pairs      src/auto_remediate/dpo_pair.py: Pairs/Redact is `redact` with its regular expression, as
--              Python's re documents it; Pairs/Issues has the models, `redact_pair`,
--              `check_emit_allowed` and the texts of the issue.
--   Caches     src/auto_remediate/finding_cache.py (Caches/Cache) with nim_models.py (Caches/Models) and
--              src/auto_remediate/finding_store.py (Caches/Store): the tables are lists of rows.
--              src/auto_remediate/deterministic_table.py is Caches/Table.
--   Budgets    src/analyzers/pdb_analyzer.py: `_evaluate_pdb` (Budgets/Analyzer), with the findings of
--              Observer/Findings.
--   Scaling    src/analyzers/hpa_analyzer.py: `_evaluate_hpa` (Scaling/Analyzer).
--   Watcher    src/watchers/event_watcher.py: Watcher/Queue has the table `work_queue` and `_upsert`,
--              Watcher/Stream the rate limit, `_consume_stream` and the reconnects of `run`.
--   Inventory  src/audit_inventory.py: Inventory/Findings has the findings, the counts and the views of
--              `AuditInventory`, Inventory/Components `top_components`.
--   Journal    src/auto_remediate/audit_logger.py and audit_query.py: Journal/Records has the values and the
--              lines of a file, Journal/Logger `AuditLogger`, Journal/Query `query_audit_log`. json.dumps
--              and json.loads are arguments; a record's values are texts, nulls and mappings of texts.
--   Sandbox    src/auto_remediate/vcluster_sandbox.py: Sandbox/Commands has the subprocesses and the log
--              file, Sandbox/Smoke the smoke tests, Sandbox/Lifecycle `_sandbox_lifecycle` and
--              `run_sandbox`. An action extends the history of calls, on which the answers depend.
--   Gitops     src/gitops/pr_generator.py: Gitops/Texts has the title and the body, Gitops/Requests the
--              configuration and the test for an automatic merge, Gitops/Create the commands of `gh`
--              that `create_remediation_pr` runs.
--   Prelude    Booleans, lists, texts, dictionaries and methods that may raise.
--   Tests      runs on concrete inputs.
--
-- Bounds and fuel. Numbers are natural numbers, and times whole microseconds where they are compared.
-- The loop of the ladder's watch takes fuel; eleven rounds are enough for its 300 seconds in steps of
-- 30, since each round but the last sleeps for one step. Compiling a pattern of fnmatch takes as much
-- fuel as the pattern has characters and printing a number as much as the number plus one, which no
-- run uses up.
-- `topological_sort` takes as much fuel as there are tasks, since each turn of its loop visits a new key.
-- The watchdog's poll loop takes fuel too: one round for each five seconds of its time-out, and one
-- more, are enough, since a round sleeps for five seconds at least. The two loops of a sandbox run take
-- one round for each two seconds of their time-outs, and one more.
--
-- Not modelled: log lines, the JSON and YAML texts, the threads and the lock of WorklistDB (each of its
-- calls is one step), the MCP server with its managers, the other analyzers, and the HTTP back
-- ends, which hold no state that the modelled parts read. The address of the escalation
-- webhook is taken to be a URL that urllib accepts.
pub mod Orphans
pub mod Watcher
pub mod Budgets
pub mod Caches
pub mod Fixes
pub mod Gitops
pub mod Watchdog
pub mod Guards
pub mod Observer
pub mod Pairs
pub mod Scaling
pub mod Seeds
pub mod Prelude
pub mod Safety
pub mod Ladder
pub mod Worklist
pub mod Tests
pub mod Sandbox
pub mod Journal
pub mod Inventory
