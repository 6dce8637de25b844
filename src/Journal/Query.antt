-- ===== src/Journal/Query.antt =====
-- `query_audit_log`.
use Prim.Native.String.{String}
use mcp_kubernetes_platform.Prelude.{
  ℕ, suc, ◌-◌, ℤ, pos, negsuc, Bool, true, false, ◌&&◌, ◌||◌, not, Option, none, some, List, [],
  ◌∷◌, ◌==◌, codes, ltb, leb, length, take, all, if◌then◌else◌,
}
use mcp_kubernetes_platform.Prelude.Order.{before}
use mcp_kubernetes_platform.Prelude.Sorting.{sort_by}
use mcp_kubernetes_platform.Prelude.Effects.{Result, ok, raised}
use mcp_kubernetes_platform.Prelude.Assoc.{lookup}
use mcp_kubernetes_platform.Journal.Records.{
  Value, null, text, mapping, Dict, Document, object, other, Bytes, raw_lines,
}

pub record Filters : Type 0 where
  pub ns : Option String
  pub since : Option String
  pub until : Option String
  pub finding_id : Option String

-- the two ValueErrors, and what Python raises for values of other types
pub data QueryError : Type 0 where
  limit_exceeded no_filter type_error attribute_error : QueryError

-- None and the empty text are no filters.
abbrev pub given : Option String → Bool
given none = false
given (some s) = not (s == "")

unfoldable pub any_given : Filters → Bool
any_given f = given f.ns || given f.since || given f.until || given f.finding_id

-- d.get(k, default)
unfoldable pub get_value : String → Value → Dict → Value
get_value k default d = elim (lookup k d) [ none ↦ default | some v ↦ v ]

-- `since and ts < since`
unfoldable pub too_early : Option String → Value → Result QueryError Bool
too_early none ts = ok false
too_early (some s) (text t) = ok (not (s == "") && before (codes t) (codes s))
too_early (some s) _ = if s == "" then ok false else raised type_error

-- `until and ts > until`
unfoldable pub too_late : Option String → Value → Result QueryError Bool
too_late none ts = ok false
too_late (some s) (text t) = ok (not (s == "") && before (codes s) (codes t))
too_late (some s) _ = if s == "" then ok false else raised type_error

abbrev pub same_text : String → Value → Bool
same_text s (text t) = t == s
same_text s _ = false

abbrev pub same_entry : String → Option String → Bool
same_entry s none = false
same_entry s (some t) = t == s

-- the namespace of the target, which has to be a mapping
unfoldable pub in_namespace : Option String → Value → Bool
in_namespace none target = true
in_namespace (some s) (mapping m) = s == "" || same_entry s (lookup "namespace" m)
in_namespace (some s) _ = s == ""

unfoldable pub about_finding : Option String → Value → Bool
about_finding none v = true
about_finding (some s) v = s == "" || same_text s v

abbrev pub timestamp_of : Dict → Value
timestamp_of rec = get_value "timestamp" (text "") rec

-- The tests on one record, in the order of the code.
unfoldable pub passes : Filters → Dict → Result QueryError Bool
passes f rec = elim (too_early f.since (timestamp_of rec)) [
  | raised e ↦ raised e
  | ok true ↦ ok false
  | ok false ↦ elim (too_late f.until (timestamp_of rec)) [
    | raised e ↦ raised e
    | ok true ↦ ok false
    | ok false ↦ ok (
        in_namespace f.ns (get_value "target" (mapping []) rec)
        && about_finding f.finding_id (get_value "finding_id" null rec))
  ]
]

unfoldable pub add_if :
    Dict → Result QueryError Bool → Result QueryError (List Dict) → Result QueryError (List Dict)
add_if rec (raised e) rest = raised e
add_if rec (ok true) (raised e) = raised e
add_if rec (ok true) (ok rs) = ok (rec ∷ rs)
add_if rec (ok false) rest = rest

abbrev pub is_text : Value → Bool
is_text (text s) = true
is_text _ = false

unfoldable pub text_of : Value → List ℕ
text_of (text s) = codes s
text_of _ = []

-- newest first: the one is not older than the other
unfoldable pub newer : Dict → Dict → Bool
newer r s = not (before (text_of (timestamp_of r)) (text_of (timestamp_of s)))

-- results.sort(key=..., reverse=True), which compares each key if there are two
unfoldable pub sort_records : List Dict → Result QueryError (List Dict)
sort_records rs =
    if leb 2 (length rs) && not (all (λ r. is_text (timestamp_of r)) rs)
    then raised type_error
    else ok (sort_by newer rs)

-- results[:limit]
unfoldable pub cut : ℤ → List Dict → List Dict
cut (pos n) rs = take n rs
cut (negsuc n) rs = take (length rs - suc n) rs

abbrev pub exceeds : ℤ → Bool
exceeds (pos n) = ltb 500 n
exceeds (negsuc n) = false

unfoldable pub finish_query : ℤ → Result QueryError (List Dict) → Result QueryError (List Dict)
finish_query limit (raised e) = raised e
finish_query limit (ok rs) = elim (sort_records rs) [
  | raised e ↦ raised e
  | ok sorted ↦ ok (cut limit sorted)
]

-- one line, and those that follow it
unfoldable pub visit_line :
    Filters → Result String Document → Result QueryError (List Dict) → Result QueryError (List Dict)
visit_line f (raised e) rest = rest
visit_line f (ok (other s)) rest = raised attribute_error
visit_line f (ok (object rec)) rest = add_if rec (passes f rec) rest

-- `loads` is `json.loads`, which raises a JSONDecodeError.
module _ (loads : Bytes → Result String Document) where
  -- the loop over the lines
  unfoldable pub collect : Filters → List Bytes → Result QueryError (List Dict)
  collect f [] = ok []
  collect f (l ∷ ls) = visit_line f (loads l) (collect f ls)

  -- no file is none
  unfoldable pub read_matches : Filters → Option Bytes → Result QueryError (List Dict)
  read_matches f none = ok []
  read_matches f (some file) = collect f (raw_lines file)

  unfoldable pub query_audit_log : Option Bytes → Filters → ℤ → Result QueryError (List Dict)
  query_audit_log file f limit =
      if exceeds limit
      then raised limit_exceeded
      else if not (any_given f)
      then raised no_filter
      else finish_query limit (read_matches f file)
