-- ===== src/Tests/Observer.antt =====
-- Runs of the observer.
use mcp_kubernetes_platform.Prelude.{
  ℕ, ◌+◌, ◌≤◌, ◌≡◌, ◌≢◌, refl, true, String, List, [], ◌∷◌, ◌++◌, map, arith, leb, is_in,
  if◌then◌else◌,
}
use mcp_kubernetes_platform.Prelude.Effects.{ok}
use mcp_kubernetes_platform.Gitops.Texts.{take_text}
use mcp_kubernetes_platform.Observer.Findings.{high, Finding, fingerprint, dedup, run_safe}
use mcp_kubernetes_platform.Observer.Loop.{
  Handling, Outside, running, append_audit, dedup_key, prune, summary, severity_text,
  process_finding, process_findings, report_new, run_loop, begin,
}
use mcp_kubernetes_platform.Observer.Reference.{none_seen}
use mcp_kubernetes_platform.Observer.Reported.{chosen, lines, process_findings-chosen}
use mcp_kubernetes_platform.Observer.Stopping.{run_loop-stops}
use mcp_kubernetes_platform.Observer.Unique.{times, fingerprints, run_safe-times}

abbrev identity : String → String
identity s = s

abbrev crash : String → Finding
crash name = record {
  resource = record { kind = "Pod"; namespace = "web"; name = name; uid = "u" };
  severity = high;
  category = "crash";
  evidence = record { events = []; log_tail = ""; status_snapshot = "" };
  suggested_fix_class = "restart";
  root_cause_hypothesis = "oom";
}

abbrev at : ℕ → String → Handling
at t name = record { finding = crash name; now = t; marked_at = t + 1; ts = "t"; writable = true }

abbrev four : List Handling
four = at 10 "a" ∷ at 20 "a" ∷ at 30 "b" ∷ at 111 "a" ∷ []

-- with a window of 100, the second is held back and the last is not
abbrev summary_of : String → String
summary_of name = summary identity identity 100 (crash name)

four_reports :
    (process_findings identity identity 100 four (none_seen [] [])).reports
    ≡ summary_of "a" ∷ summary_of "b" ∷ summary_of "a" ∷ []
unfolding process_findings process_finding report_new prune dedup_key summary fingerprint take_text
    severity_text append_audit
four_reports = refl

process_findings-chosen_example :
    ((process_findings identity identity 100 four (none_seen [] [])).reports
      ≡ [] ++ map (λ h. summary identity identity 100 h.finding) (chosen 100 [] four))
    × ((process_findings identity identity 100 four (none_seen [] [])).audit
        ≡ [] ++ lines identity identity 100 (chosen 100 [] four))
process_findings-chosen_example = process_findings-chosen identity identity 100 four [] [] (
  omega arith,
  omega arith,
  (omega arith, omega arith, (omega arith, omega arith, (omega arith, omega arith, tt))),
)

-- told to stop at the fourth call
abbrev outside : Outside
outside = record { should_stop = λ i. leb 3 i; healthy = λ t. true; run_safe = λ t. ok four }

run_loop-stops_example :
    ((run_loop identity identity 100 30 outside 4 (begin (none_seen [] []))).0 ≢ running)
    × ((run_loop identity identity 100 30 outside 4 (begin (none_seen [] []))).1.slept ≤ 3)
run_loop-stops_example =
    run_loop-stops identity identity 100 30 outside 3 (none_seen [] []) (λ i h. ground (arith, h))

three_kept :
    run_safe identity (ok true) (ok (crash "a" ∷ crash "b" ∷ crash "a" ∷ []))
    ≡ ok (crash "a" ∷ crash "b" ∷ [])
unfolding run_safe dedup fingerprint take_text
three_kept = refl

run_safe-times_example :
    times "Pod/web/a/crash" (fingerprints identity (crash "a" ∷ crash "b" ∷ [])) ≡ (
      if is_in "Pod/web/a/crash" (fingerprints identity (crash "a" ∷ crash "b" ∷ crash "a" ∷ []))
      then 1
      else 0)
run_safe-times_example =
    run_safe-times identity (crash "a" ∷ crash "b" ∷ crash "a" ∷ []) (crash "a" ∷ crash "b" ∷ [])
      "Pod/web/a/crash" three_kept
