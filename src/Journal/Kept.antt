-- ===== src/Journal/Kept.antt =====
-- What is appended is read again, and nothing that was written is lost when the log is moved away.
use Prim.Native.String.{String}
use mathlib.Core.Path.{subst}
use mathlib.Core.List.{Perm}
use mcp_kubernetes_platform.Prelude.Sorting.{
  sort_by, sort_by-perm, sort_by-IsSorted, length-sort_by, IsSorted,
}
use mcp_kubernetes_platform.Prelude.{
  ℕ, suc, ◌≤◌, ◌<◌, ltb, leb, pos, Bool, not, ◌&&◌, ◌≡◌, refl, sym, ap, ◌∙◌, true, false, none,
  some, List, [], ◌∷◌, ◌++◌, inl, inr, arith, all, map, keep, take-all, length-append, length,
  append_assoc,
}
use mcp_kubernetes_platform.Prelude.Effects.{Result, ok, raised, Result-cases}
use mcp_kubernetes_platform.Journal.Records.{
  Dict, Document, object, other, Bytes, lines_of, strip, is_full, raw_lines,
}
use mcp_kubernetes_platform.Journal.Query.{
  Filters, any_given, timestamp_of, is_text, newer, passes, add_if, visit_line, collect,
  sort_records, cut, finish_query, read_matches, query_audit_log,
}
use mcp_kubernetes_platform.Journal.Newest.{add_if-ok, newer_total, newer_trans}
use mcp_kubernetes_platform.Journal.Lines.{is_one_line, IsComplete, ended, lines_of-IsComplete}
use mcp_kubernetes_platform.Journal.Logger.{
  opened, Log, Answers, add_bytes, write, write_if_locked, write_locked, write_line, report,
  append_line, append, and_parsed, parse_all, read_entries,
}

-- What `json.dumps` gives for a record: one line, with neither space around it nor nothing in it.
pub record IsJsonLine (l : Bytes) : Type 0 where
  pub one_line : is_one_line l ≡ true
  pub stripped : strip l ≡ l
  pub full : is_full l ≡ true

keep-strip :
    (ls : List Bytes) (l : Bytes)
    → strip l ≡ l
    → is_full l ≡ true
    → keep is_full (map strip (ls ++ l ∷ [])) ≡ keep is_full (map strip ls) ++ l ∷ []
keep-strip [] l e f = rw (e, f) refl
keep-strip (k ∷ ls) l e f = ground (arith, keep-strip ls l e f)

raw_lines-append :
    {s : Bytes} (l : Bytes)
    → IsComplete s
    → IsJsonLine l
    → raw_lines (s ++ (l ++ 10 ∷ [])) ≡ raw_lines s ++ l ∷ []
unfolding raw_lines
raw_lines-append {s} l c j =
    ap (λ ls. keep is_full (map strip ls)) (lines_of-IsComplete l c j.one_line)
    ∙ keep-strip (lines_of false false s) l j.stripped j.full

-- The system locks the file and writes the whole line.
pub record Writes (a : Answers) (line : Bytes) : Type 0 where
  pub locked : a.lock_error ≡ none
  pub bytes : ℕ
  pub written : a.written ≡ ok bytes
  pub whole : suc (length line) ≤ bytes

collect-append :
    (loads : Bytes → Result String Document) (f : Filters) (ls : List Bytes) (l : Bytes) (r : Dict)
    (rs : List Dict)
    → loads l ≡ ok (object r)
    → passes f r ≡ ok true
    → collect loads f ls ≡ ok rs
    → collect loads f (ls ++ l ∷ []) ≡ ok (rs ++ r ∷ [])
unfolding collect visit_line add_if
collect-append loads f [] l r rs e p h = ground (arith, e, p, h)
collect-append loads f (k ∷ ls) l r rs e p h = elim (Result-cases (loads k)) [
  | inr (x, g) ↦ rw g (collect-append loads f ls l r rs e p (rw g at h))
  | inl (other s, g) ↦ absurd (ground (arith, h, g))
  | inl (object q, g) ↦ elim (add_if-ok q (passes f q) (collect loads f ls) rs (rw g at h)) [
    | inl (fits, (rest, (found, split))) ↦
        let more = collect-append loads f ls l r rest e p found in rw (g, fits, more, split) refl
    | inr (misses, found) ↦
        let more = collect-append loads f ls l r rs e p found in rw (g, misses, more) refl
  ]
]

and_parsed-ok :
    (d : Document) (ds all : List Document) → and_parsed (ok d) (ok ds) ≡ ok all → d ∷ ds ≡ all
unfolding and_parsed
and_parsed-ok d ds all h = cc h

parse_all-append :
    (loads : Bytes → Result String Document) (ls : List Bytes) (l : Bytes) (d : Document)
    (ds : List Document)
    → loads l ≡ ok d
    → parse_all loads ls ≡ ok ds
    → parse_all loads (ls ++ l ∷ []) ≡ ok (ds ++ d ∷ [])
unfolding parse_all and_parsed
parse_all-append loads [] l d ds e h = ground (arith, e, h)
parse_all-append loads (k ∷ ls) l d ds e h = elim (Result-cases (loads k)) [
  | inl (first, f) ↦ elim (Result-cases (parse_all loads ls)) [
    | inl (others, g) ↦
        let more = parse_all-append loads ls l d others e g in
        rw (f, more, sym (and_parsed-ok first others ds (rw (f, g) at h))) refl
    | inr (x, g) ↦ absurd (cc (rw (f, g) at h))
  ]
  | inr (x, f) ↦ absurd (cc (rw f at h))
]

report-files :
    (r : Result String Unit) (w : Log)
    → ((report (r, w)).current ≡ w.current) × ((report (r, w)).is_moved ≡ w.is_moved)
unfolding report
report-files (ok _) w = (refl, refl)
report-files (raised e) w = (refl, refl)

write_line-current :
    (a : Answers) (line : Bytes) (w : Log)
    → Writes a line
    → ((report (write_line a (line ++ 10 ∷ []) opened w)).current ≡ w.current ++ (line ++ 10 ∷ []))
      × ((report (write_line a (line ++ 10 ∷ []) opened w)).is_moved ≡ w.is_moved)
unfolding write_line write_if_locked write_locked write add_bytes report
write_line-current a line w s =
    let whole =
      take-all s.bytes (line ++ 10 ∷ []) (omega (arith, s.whole, length-append line (10 ∷ []))) in
    rw (s.locked, s.written, whole)
      (report-files _ (record w { current = w.current ++ (line ++ 10 ∷ []) }))

IsComplete-line : (s l : Bytes) → IsComplete (s ++ (l ++ 10 ∷ []))
IsComplete-line s l = subst IsComplete (append_assoc s l (10 ∷ [])) (ended (s ++ l))

append-report :
    (dumps : Dict → Result String Bytes) (a : Answers) (entry : Dict) (w : Log) (line : Bytes)
    → dumps entry ≡ ok line
    → w.descriptor ≡ opened
    → (append dumps a entry w).1 ≡ report (write_line a (line ++ 10 ∷ []) opened w)
unfolding append append_line
append-report dumps a entry w line e d = rw (e, d) refl

Bool-and_false : (b : Bool) → b && not true ≡ false
Bool-and_false true = refl
Bool-and_false false = refl

sort_records-texts :
    (rs : List Dict)
    → all (λ r. is_text (timestamp_of r)) rs ≡ true
    → sort_records rs ≡ ok (sort_by newer rs)
unfolding sort_records
sort_records-texts rs texts = rw (texts, Bool-and_false (leb 2 (length rs))) refl

finish_query-all :
    (n : ℕ) (rs : List Dict)
    → length rs ≤ n
    → all (λ r. is_text (timestamp_of r)) rs ≡ true
    → finish_query (pos n) (ok rs) ≡ ok (sort_by newer rs)
unfolding finish_query cut
finish_query-all n rs room texts =
    let whole = take-all n (sort_by newer rs) (omega (arith, room, length-sort_by newer rs)) in
    rw (finish_query, sort_records-texts rs texts) (ap ok whole)

-- A query that asks for no fewer records than it finds returns them all, the newest first.
query-all :
    (loads : Bytes → Result String Document) (file : Bytes) (f : Filters) (n : ℕ) (rs : List Dict)
    → any_given f ≡ true
    → n ≤ 500
    → length rs ≤ n
    → all (λ r. is_text (timestamp_of r)) rs ≡ true
    → collect loads f (raw_lines file) ≡ ok rs
    → query_audit_log loads (some file) f (pos n) ≡ ok (sort_by newer rs)
unfolding query_audit_log read_matches
query-all loads file f n rs given small room texts found =
    let allowed : ltb 500 n ≡ false = ground (arith, small) in
    rw (allowed, given, found) (finish_query-all n rs room texts)

-- What is found of an entry that was added to the log: `ds` are the entries before it, and `rs` the
-- records that passed the filters.
pub record IsFound (loads : Bytes → Result String Document) (entry : Dict) (ds : List Document)
    (f : Filters) (n : ℕ) (rs : List Dict) (after : Log) : Type 0 where
  pub read : read_entries loads after ≡ ok (ds ++ object entry ∷ [])
  pub answer : List Dict
  pub queried : query_audit_log loads (some after.current) f (pos n) ≡ ok answer
  pub records : Perm answer (rs ++ entry ∷ [])
  pub order : IsSorted newer answer
  pub complete : IsComplete after.current

module _ (loads : Bytes → Result String Document) (entry : Dict) (f : Filters) (n : ℕ)
    (ds : List Document) (rs : List Dict) where
  IsFound-line :
      (w v : Log) (line : Bytes)
      → loads line ≡ ok (object entry)
      → IsJsonLine line
      → IsComplete w.current
      → v.current ≡ w.current ++ (line ++ 10 ∷ [])
      → v.is_moved ≡ false
      → parse_all loads (raw_lines w.current) ≡ ok ds
      → any_given f ≡ true
      → n ≤ 500
      → length rs < n
      → all (λ r. is_text (timestamp_of r)) (rs ++ entry ∷ []) ≡ true
      → passes f entry ≡ ok true
      → collect loads f (raw_lines w.current) ≡ ok rs
      → IsFound loads entry ds f n rs v
  unfolding read_entries
  IsFound-line w v line loaded json complete file here read given small room texts fits found =
      let split = raw_lines-append line complete json in
      let more = collect-append loads f (raw_lines w.current) line entry rs loaded fits found in
      let lines : raw_lines v.current ≡ raw_lines w.current ++ line ∷ [] =
        ap raw_lines file ∙ split in
      record {
        read =
            rw (here, file, split)
              (parse_all-append loads (raw_lines w.current) line (object entry) ds loaded read);
        answer = sort_by newer (rs ++ entry ∷ []);
        queried =
            query-all loads v.current f n (rs ++ entry ∷ []) given small
              (omega (arith, room, length-append rs (entry ∷ []))) texts
              (ap (collect loads f) lines ∙ more);
        records = sort_by-perm newer (rs ++ entry ∷ []);
        order = sort_by-IsSorted newer newer_total newer_trans (rs ++ entry ∷ []);
        complete = rw file (IsComplete-line w.current line);
      }

  -- An entry is appended to a complete file, by a system that takes the whole line; `loads` undoes
  -- `dumps` on it, and a dumped entry is one line. Then `read_entries` reads it back as the last of
  -- the entries, and a query whose filters it passes returns: it finds the records that it would
  -- have found before and the entry, and returns them newest first, if they are at most its limit
  -- and their timestamps are texts. And the file is complete again.
  pub append-IsFound :
      (dumps : Dict → Result String Bytes) (a : Answers) (w : Log) (line : Bytes)
      → dumps entry ≡ ok line
      → loads line ≡ ok (object entry)
      → IsJsonLine line
      → Writes a line
      → w.descriptor ≡ opened
      → w.is_moved ≡ false
      → IsComplete w.current
      → read_entries loads w ≡ ok ds
      → any_given f ≡ true
      → n ≤ 500
      → length rs < n
      → all (λ r. is_text (timestamp_of r)) (rs ++ entry ∷ []) ≡ true
      → passes f entry ≡ ok true
      → collect loads f (raw_lines w.current) ≡ ok rs
      → IsFound loads entry ds f n rs (append dumps a entry w).1
  unfolding read_entries
  append-IsFound dumps a w line dumped loaded json writes open_now here complete read given small
        room texts fits found =
      let (file, moved) = write_line-current a line w writes in
      rw (append-report dumps a entry w line dumped open_now) (
        IsFound-line w _ line loaded json complete file (moved ∙ here) (rw here at read) given small
          room texts fits found)
