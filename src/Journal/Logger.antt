-- ===== src/Journal/Logger.antt =====
-- `AuditLogger`: the file that is open for appending, and what the log was moved away to.
use Prim.Native.String.{String}
use mcp_kubernetes_platform.Prelude.{
  ℕ, ◌-◌, Bool, true, false, not, Option, none, some, List, [], ◌∷◌, ◌++◌, is_in, if◌then◌else◌,
  ◌<>◌, length, codes, take,
}
use mcp_kubernetes_platform.Prelude.Effects.{Result, ok, raised, Exec, pure, raise, ◌>>◌}
use mcp_kubernetes_platform.Prelude.Assoc.{insert}
use mcp_kubernetes_platform.Gitops.Texts.{take_text}
use mcp_kubernetes_platform.Journal.Records.{
  Value, null, text, mapping, Dict, Document, Bytes, raw_lines,
}

abbrev pub valid_actions : List String
valid_actions =
    "detect" ∷ "classify" ∷ "sandbox" ∷ "pr_open" ∷ "pr_merge" ∷ "restart" ∷ "observe" ∷ "escalate"
    ∷ []

abbrev pub valid_outcomes : List String
valid_outcomes = "success" ∷ "failure" ∷ "skipped" ∷ "blocked" ∷ []

-- What `_fd` is: -1, a number that was closed and kept, or the file that is appended to.
pub data Descriptor : Type 0 where
  closed stale opened : Descriptor

-- `current` is the file that the log was last opened on; `is_moved` says that the path no longer names
-- it. `archives` are the files before it, the last first, `elsewhere` what went into other files that
-- got the number of a closed descriptor, and `stderr` the errors that were reported.
pub record Log : Type 0 where
  pub current : Bytes
  pub descriptor : Descriptor
  pub is_moved : Bool
  pub archives : List Bytes
  pub elsewhere : Bytes
  pub stderr : List String

-- How the system answers one append: whether the number of a closed descriptor is that of another open
-- file by then, an error of `flock`, the number of bytes written or the error of
-- `write`, and an error of the unlock.
pub record Answers : Type 0 where
  pub reused : Bool
  pub lock_error : Option String
  pub written : Result String ℕ
  pub unlock_error : Option String

pub data LogError : Type 0 where
  unknown_action unknown_outcome unserializable os_error : String → LogError

abbrev pub Action : Type 0 → Type 0
Action A = Exec LogError Log A

-- The file that a descriptor names gets the bytes: the log, or another one.
unfoldable pub add_bytes : Bool → Bytes → Log → Log
add_bytes false bytes w = record w { current = w.current ++ bytes }
add_bytes true bytes w = record w { elsewhere = w.elsewhere ++ bytes }

-- `os.write`, which may write less than it is given; the flag says that it writes to another file.
unfoldable pub write : Bool → Result String ℕ → Bytes → Log → Result String Unit × Log
write other (ok n) line w = (ok tt, add_bytes other (take n line) w)
write other (raised e) line w = (raised e, w)

unfoldable pub write_locked : Bool → Answers → Bytes → Log → Result String Unit × Log
write_locked other a line w =
    let (r, w') = write other a.written line w in
    (elim a.unlock_error [ none ↦ r | some e ↦ raised e ], w')

unfoldable pub write_if_locked :
    Bool → Option String → Answers → Bytes → Log → Result String Unit × Log
write_if_locked other none a line w = write_locked other a line w
write_if_locked other (some e) a line w = (raised e, w)

-- The `try` block. It only tests the number, which another file may have got.
unfoldable pub write_line : Answers → Bytes → Descriptor → Log → Result String Unit × Log
write_line a line closed w = (raised "log file descriptor is closed", w)
write_line a line stale w =
    if a.reused
    then write_if_locked true a.lock_error a line w
    else (raised "Bad file descriptor", w)
write_line a line opened w = write_if_locked false a.lock_error a line w

unfoldable pub report : Result String Unit × Log → Log
report (ok _, w) = w
report (raised e, w) = record w { stderr = w.stderr ++ e ∷ [] }

-- `_open_file`; the argument is the error of `os.open`.
unfoldable pub open_file : Option String → Action Unit
open_file none w =
    let new : Log = record w { descriptor = opened } in
    (
      ok tt,
      if w.is_moved
          then record new { current = []; is_moved = false; archives = w.current ∷ w.archives }
          else new,
    )
open_file (some e) w = (
  raised (os_error e),
  record w { descriptor = elim w.descriptor [ closed ↦ closed | _ ↦ stale ] },
)

abbrev pub reopen : Option String → Action Unit
reopen = open_file

-- the rename from outside
unfoldable pub move_away : Log → Log
move_away w = record w { is_moved = true }

-- None is null.
abbrev or_null : Option String → Value
or_null none = null
or_null (some s) = text s

-- {**d, **fields}
unfoldable pub update : Dict → Dict → Dict
update d [] = d
update d ((k, v) ∷ fields) = update (insert k v d) fields

-- strftime(...)[:-3] + "Z"
unfoldable pub timestamp : String → String
timestamp formatted = take_text (length (codes formatted) - 3) formatted <> "Z"

-- the `try` statement, for what `json.dumps` gave
unfoldable pub append_line : Answers → Result String Bytes → Action Unit
append_line a (raised e) w = (raised (unserializable e), w)
append_line a (ok line) w = (ok tt, report (write_line a (line ++ 10 ∷ []) w.descriptor w))

-- `dumps` is `json.dumps`, which may raise.
module _ (dumps : Dict → Result String Bytes) where
  unfoldable pub append : Answers → Dict → Action Unit
  append a entry w = append_line a (dumps entry) w

  unfoldable pub entry_of :
      String
      → String
      → String
      → List (String × String)
      → String
      → String
      → String
      → Option String
      → Option String
      → Option String
      → Option String
      → Dict
  entry_of formatted actor action target finding_id outcome evidence_pointer fix_id sandbox_id
        pr_url dpo_pair_url =
      ("timestamp", text (timestamp formatted))
      ∷ ("actor", text actor)
      ∷ ("action", text action)
      ∷ ("target", mapping target)
      ∷ ("finding_id", text finding_id)
      ∷ ("fix_id", or_null fix_id)
      ∷ ("sandbox_id", or_null sandbox_id)
      ∷ ("pr_url", or_null pr_url)
      ∷ ("outcome", text outcome)
      ∷ ("evidence_pointer", text evidence_pointer)
      ∷ ("dpo_pair_url", or_null dpo_pair_url)
      ∷ []

  -- `formatted` is the time as `strftime` gives it.
  unfoldable pub log_action :
      Answers
      → String
      → String
      → String
      → List (String × String)
      → String
      → String
      → String
      → Option String
      → Option String
      → Option String
      → Option String
      → Action Unit
  log_action a formatted actor action target finding_id outcome evidence_pointer fix_id sandbox_id
        pr_url dpo_pair_url =
      if not (is_in action valid_actions)
      then raise (unknown_action action)
      else if not (is_in outcome valid_outcomes)
      then raise (unknown_outcome outcome)
      else append a (
          entry_of formatted actor action target finding_id outcome evidence_pointer fix_id
            sandbox_id pr_url dpo_pair_url)

  -- `record`, at the time `now`; the keywords `fields` are none of its parameters.
  unfoldable pub record_event : Answers → String → String → Dict → Action Dict
  record_event a now event fields =
      let entry : Dict = update (("ts", text now) ∷ ("event", text event) ∷ []) fields in
      append a entry >> pure entry

  unfoldable pub record_guard_rejection : Answers → String → String → String → Action Dict
  record_guard_rejection a now namespace caller =
      record_event a now "namespace_guard_rejected"
        (("namespace", text namespace) ∷ ("caller", text caller) ∷ ("severity", text "WARN") ∷ [])

  unfoldable pub record_remediation :
      Answers → String → String → String → String → String → Dict → Action Dict
  record_remediation a now namespace action resource outcome extra =
      record_event a now "remediation_applied" (
        update
          (("namespace", text namespace)
            ∷ ("action", text action)
            ∷ ("resource", text resource)
            ∷ ("outcome", text outcome)
            ∷ [])
          extra)

unfoldable pub and_parsed :
    Result String Document → Result String (List Document) → Result String (List Document)
and_parsed (raised e) rest = raised e
and_parsed (ok d) (raised e) = raised e
and_parsed (ok d) (ok ds) = ok (d ∷ ds)

unfoldable pub parse_all :
    (Bytes → Result String Document) → List Bytes → Result String (List Document)
parse_all loads [] = ok []
parse_all loads (l ∷ ls) = and_parsed (loads l) (parse_all loads ls)

-- `loads` is `json.loads`; a log that was moved away has no file at its path.
unfoldable pub read_entries : (Bytes → Result String Document) → Log → Result String (List Document)
read_entries loads w = if w.is_moved then ok [] else parse_all loads (raw_lines w.current)
