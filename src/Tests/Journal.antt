-- ===== src/Tests/Journal.antt =====
-- Runs of the audit log.
use Prim.Native.String.{String}
use mcp_kubernetes_platform.Prelude.{
  ◌≤◌, ◌≡◌, refl, pos, true, false, none, some, List, [], ◌∷◌, keep, take, arith, lstrip, rstrip,
}
use mcp_kubernetes_platform.Prelude.Effects.{Result, ok, raised}
use mcp_kubernetes_platform.Prelude.Assoc.{lookup}
use mcp_kubernetes_platform.Prelude.Order.{before}
use mcp_kubernetes_platform.Prelude.Sorting.{sort_by, insert_by}
use mcp_kubernetes_platform.Journal.Records.{
  text, mapping, Dict, Document, object, Bytes, lines_of, raw_lines,
}
use mcp_kubernetes_platform.Journal.Logger.{
  opened, Log, Answers, append, log_action, unknown_action, read_entries, parse_all, and_parsed,
}
use mcp_kubernetes_platform.Journal.Query.{
  Filters, any_given, get_value, too_early, too_late, in_namespace, about_finding, passes, add_if,
  visit_line, collect, read_matches, text_of, newer, sort_records, cut, finish_query,
  query_audit_log,
}
use mcp_kubernetes_platform.Journal.Newest.{matches, records, IsNewest, query_audit_log-IsNewest}
use mcp_kubernetes_platform.Journal.Lines.{ended}
use mcp_kubernetes_platform.Journal.Kept.{IsJsonLine, Writes, IsFound, append-IsFound}
use mcp_kubernetes_platform.Journal.Rotation.{
  Operation, appends, moves, reopens, run, GoesOn, run-GoesOn,
}

abbrev entry : Dict
entry =
    ("timestamp", text "2026-01-02")
    ∷ ("target", mapping (("namespace", "shop") ∷ []))
    ∷ ("finding_id", text "f1")
    ∷ []

-- "{}" for any entry
abbrev braces : Bytes
braces = 123 ∷ 125 ∷ []

abbrev dumps : Dict → Result String Bytes
dumps d = ok braces

-- the entry for any line
abbrev loads : Bytes → Result String Document
loads b = ok (object entry)

-- two entries
abbrev file : Bytes
file = 123 ∷ 125 ∷ 10 ∷ 123 ∷ 125 ∷ 10 ∷ []

abbrev filters : Filters
filters = record { ns = some "shop"; since = some "2026"; until = none; finding_id = some "f1" }

query-file : query_audit_log loads (some file) filters (pos 1) ≡ ok (entry ∷ [])
unfolding query_audit_log any_given read_matches finish_query sort_records cut take collect
    visit_line add_if passes too_early too_late in_namespace about_finding get_value lookup before
    raw_lines lines_of lstrip rstrip sort_by insert_by newer text_of
query-file = refl

query_audit_log-IsNewest_example :
    (1 ≤ 500)
    × (any_given filters ≡ true)
    × IsNewest (keep (matches filters) (records loads (some file))) 1 (entry ∷ [])
query_audit_log-IsNewest_example =
    query_audit_log-IsNewest loads (some file) filters 1 (entry ∷ []) query-file

-- the system locks, and writes as much as it is given
abbrev answers : Answers
answers = record { reused = true; lock_error = none; written = ok 9; unlock_error = none }

abbrev log : Log
log = record {
  current = file;
  descriptor = opened;
  is_moved = false;
  archives = [];
  elsewhere = [];
  stderr = [];
}

braces-IsJsonLine : IsJsonLine braces
unfolding lstrip rstrip
braces-IsJsonLine = record { one_line = refl; stripped = refl; full = refl }

answers-Writes : Writes answers braces
answers-Writes = record { locked = refl; bytes = 9; written = refl; whole = omega arith }

log-entries : read_entries loads log ≡ ok (object entry ∷ object entry ∷ [])
unfolding read_entries parse_all and_parsed raw_lines lines_of lstrip rstrip
log-entries = refl

both-collected : collect loads filters (raw_lines log.current) ≡ ok (entry ∷ entry ∷ [])
unfolding collect visit_line add_if passes too_early too_late in_namespace about_finding get_value
    lookup before raw_lines lines_of lstrip rstrip
both-collected = refl

entry-passes : passes filters entry ≡ ok true
unfolding passes too_early too_late in_namespace about_finding get_value lookup before
entry-passes = refl

append-IsFound_example :
    IsFound loads entry
      (object entry ∷ object entry ∷ [])
      filters
      10
      (entry ∷ entry ∷ [])
      (append dumps answers entry log).1
unfolding any_given get_value lookup
append-IsFound_example =
    append-IsFound loads entry filters 10 (object entry ∷ object entry ∷ []) (entry ∷ entry ∷ [])
      dumps answers log braces refl refl braces-IsJsonLine answers-Writes refl refl
      (ended (123 ∷ 125 ∷ 10 ∷ 123 ∷ 125 ∷ [])) log-entries refl (omega arith) (omega arith) refl
      entry-passes both-collected

abbrev operations : List Operation
operations =
    appends answers entry
    ∷ moves
    ∷ appends answers entry
    ∷ reopens none
    ∷ reopens (some "EMFILE")
    ∷ appends answers entry
    ∷ []

run-GoesOn_example : GoesOn log (run dumps operations log)
run-GoesOn_example = run-GoesOn dumps operations log

bad_action :
    (log_action dumps answers "2026" "agent" "reboot" [] "f1" "success" "" none none none none
      log).0
    ≡ raised (unknown_action "reboot")
unfolding log_action
bad_action = refl
