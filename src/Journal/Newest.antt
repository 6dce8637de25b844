-- ===== src/Journal/Newest.antt =====
-- What a query returns.
use Prim.Native.String.{String}
use mathlib.Core.List.{Perm}
use mcp_kubernetes_platform.Prelude.{
  ℕ, ◌≤◌, ◌≡◌, refl, sym, ap, ◌∙◌, ℤ, pos, Bool, true, false, ◌&&◌, not, Option, none, some, List,
  [], ◌∷◌, ◌++◌, ◌==◌, codes, ltb, length, drop, take-append-drop, take-full, length-take-le, all,
  keep, Bool-cases, ◌⊎◌, inl, inr, arith,
}
use mcp_kubernetes_platform.Prelude.Order.{before, before_asymm, before_split}
use mcp_kubernetes_platform.Prelude.Sorting.{sort_by, sort_by-perm, sort_by-IsSorted, IsSorted}
use mcp_kubernetes_platform.Prelude.Effects.{Result, ok, raised, Result-cases}
use mcp_kubernetes_platform.Journal.Records.{
  Value, null, text, mapping, Dict, Document, object, other, Bytes, raw_lines,
}
use mcp_kubernetes_platform.Journal.Query.{
  Filters, QueryError, any_given, get_value, too_early, too_late, in_namespace, about_finding,
  timestamp_of, passes, add_if, visit_line, collect, text_of, newer, sort_records, cut,
  finish_query, read_matches, query_audit_log,
}

pub newer_total : (r s : Dict) → newer r s ≡ false → newer s r ≡ true
unfolding newer
newer_total r s h =
    ground (arith, h, before_asymm (text_of (timestamp_of r)) (text_of (timestamp_of s)))

pub newer_trans : (r s t : Dict) → newer r s ≡ true → newer s t ≡ true → newer r t ≡ true
unfolding newer
newer_trans r s t h k = ground (
  arith,
  h,
  k,
  before_split (text_of (timestamp_of r)) (text_of (timestamp_of s)) (text_of (timestamp_of t)),
)

-- older than the one bound, newer than the other; the empty text is no bound
abbrev pub is_early : Option String → Value → Bool
is_early none v = false
is_early (some s) v = not (s == "") && before (text_of v) (codes s)

abbrev pub is_late : Option String → Value → Bool
is_late none v = false
is_late (some s) v = not (s == "") && before (codes s) (text_of v)

-- The tests of a record, with a timestamp that is a text wherever it is compared.
abbrev pub matches : Filters → Dict → Bool
matches f r =
    not (is_early f.since (timestamp_of r))
    && not (is_late f.until (timestamp_of r))
    && in_namespace f.ns (get_value "target" (mapping []) r)
    && about_finding f.finding_id (get_value "finding_id" null r)

abbrev pub and_object : Result String Document → List Dict → List Dict
and_object (raised e) rs = rs
and_object (ok (other s)) rs = rs
and_object (ok (object r)) rs = r ∷ rs

-- The records of the lines that are JSON objects.
abbrev pub objects : (Bytes → Result String Document) → List Bytes → List Dict
objects loads [] = []
objects loads (l ∷ ls) = and_object (loads l) (objects loads ls)

too_early-ok : (o : Option String) (v : Value) (b : Bool) → too_early o v ≡ ok b → b ≡ is_early o v
unfolding too_early text_of
too_early-ok none v b h = cc h
too_early-ok (some s) (text t) b h = cc h
too_early-ok (some s) null b h = ground (arith, h)
too_early-ok (some s) (mapping m) b h = ground (arith, h)

too_late-ok : (o : Option String) (v : Value) (b : Bool) → too_late o v ≡ ok b → b ≡ is_late o v
unfolding too_late text_of
too_late-ok none v b h = cc h
too_late-ok (some s) (text t) b h = cc h
too_late-ok (some s) null b h = ground (arith, h)
too_late-ok (some s) (mapping m) b h = ground (arith, h)

passes-matches : (f : Filters) (r : Dict) (b : Bool) → passes f r ≡ ok b → b ≡ matches f r
unfolding passes
passes-matches f r b h = elim (Result-cases (too_early f.since (timestamp_of r))) [
  | inl (x, e) ↦ elim (Result-cases (too_late f.until (timestamp_of r))) [
    | inl (y, g) ↦
        let early = too_early-ok f.since (timestamp_of r) x e in
        let late = too_late-ok f.until (timestamp_of r) y g in ground (arith, h, e, g, early, late)
    | inr (y, g) ↦
        let early = too_early-ok f.since (timestamp_of r) x e in ground (arith, h, e, g, early)
  ]
  | inr (x, e) ↦ absurd (ground (arith, h, e))
]

pub add_if-ok :
    (r : Dict) (p : Result QueryError Bool) (rest : Result QueryError (List Dict)) (rs : List Dict)
    → add_if r p rest ≡ ok rs
    → ((p ≡ ok true) × ((rs' : List Dict) × ((rest ≡ ok rs') × (rs ≡ r ∷ rs'))))
      ⊎ ((p ≡ ok false) × (rest ≡ ok rs))
unfolding add_if
add_if-ok r (raised e) rest rs h = absurd (cc h)
add_if-ok r (ok true) (raised e) rs h = absurd (cc h)
add_if-ok r (ok true) (ok rs') rs h = inl (refl, (rs', (refl, cc h)))
add_if-ok r (ok false) rest rs h = inr (refl, h)

collect-matches :
    (loads : Bytes → Result String Document) (f : Filters) (ls : List Bytes) (rs : List Dict)
    → collect loads f ls ≡ ok rs
    → rs ≡ keep (matches f) (objects loads ls)
unfolding collect visit_line
collect-matches loads f [] rs h = cc h
collect-matches loads f (l ∷ ls) rs h = elim (Result-cases (loads l)) [
  | inr (x, e) ↦ rw e (collect-matches loads f ls rs (rw e at h))
  | inl (other s, e) ↦ absurd (ground (arith, h, e))
  | inl (object r, e) ↦ elim (add_if-ok r (passes f r) (collect loads f ls) rs (rw e at h)) [
    | inl (p, (rs', (q, k))) ↦
        rw (e, sym (passes-matches f r true p))
          (k ∙ ap (λ xs. r ∷ xs) (collect-matches loads f ls rs' q))
    | inr (p, q) ↦ rw (e, sym (passes-matches f r false p)) (collect-matches loads f ls rs q)
  ]
]

sort_records-ok : (rs sorted : List Dict) → sort_records rs ≡ ok sorted → sorted ≡ sort_by newer rs
unfolding sort_records
sort_records-ok rs sorted h = ground (arith, h)

-- What was cut off, and what the result is a part of.
pub record IsNewest (wanted : List Dict) (n : ℕ) (rs : List Dict) : Type 0 where
  pub older : List Dict
  pub all : Perm (rs ++ older) wanted
  pub order : IsSorted newer (rs ++ older)
  pub full : (length rs ≡ n) ⊎ (older ≡ [])
  pub bound : length rs ≤ n

cut-IsNewest : (n : ℕ) (wanted : List Dict) → IsNewest wanted n (cut (pos n) (sort_by newer wanted))
unfolding cut
cut-IsNewest n wanted =
    let whole = sort_by newer wanted in
    record {
      older = drop n whole;
      all = rw (take-append-drop n whole) (sort_by-perm newer wanted);
      order = rw (take-append-drop n whole) (sort_by-IsSorted newer newer_total newer_trans wanted);
      full = elim (take-full n whole) [ inl e ↦ inl e | inr e ↦ inr e.1 ];
      bound = length-take-le n whole;
    }

-- the records in a file, and those in none
abbrev pub records : (Bytes → Result String Document) → Option Bytes → List Dict
records loads none = []
records loads (some file) = objects loads (raw_lines file)

read_matches-ok :
    (loads : Bytes → Result String Document) (f : Filters) (file : Option Bytes) (rs : List Dict)
    → read_matches loads f file ≡ ok rs
    → rs ≡ keep (matches f) (records loads file)
unfolding read_matches
read_matches-ok loads f none rs h = cc h
read_matches-ok loads f (some file) rs h = collect-matches loads f (raw_lines file) rs h

finish_query-ok :
    (limit : ℤ) (found : Result QueryError (List Dict)) (rs : List Dict)
    → finish_query limit found ≡ ok rs
    → (all : List Dict) × ((found ≡ ok all) × (rs ≡ cut limit (sort_by newer all)))
unfolding finish_query
finish_query-ok limit (raised e) rs h = absurd (cc h)
finish_query-ok limit (ok all) rs h = elim (Result-cases (sort_records all)) [
  | inl (sorted, e) ↦ (all, (refl, ground (arith, h, e, sort_records-ok all sorted e)))
  | inr (x, e) ↦ absurd (ground (arith, h, e))
]

-- A query with a natural limit n that returns does so with a filter given and n at most 500; it returns, newest
-- first, the n newest of the file's records that pass its filters, or all if they are fewer.
pub query_audit_log-IsNewest :
    (loads : Bytes → Result String Document) (file : Option Bytes) (f : Filters) (n : ℕ)
    (rs : List Dict)
    → query_audit_log loads file f (pos n) ≡ ok rs
    → (n ≤ 500) × (any_given f ≡ true) × IsNewest (keep (matches f) (records loads file)) n rs
unfolding query_audit_log
query_audit_log-IsNewest loads file f n rs h = elim (Bool-cases (ltb 500 n)) [
  | inl big ↦ absurd (ground (arith, h, big))
  | inr small ↦ elim (Bool-cases (any_given f)) [
    | inl some_filter ↦
        let done : finish_query (pos n) (read_matches loads f file) ≡ ok rs =
          ground (arith, h, small, some_filter) in
        let (all, (found, result)) = finish_query-ok (pos n) _ rs done in
        (
          ground (arith, small),
          some_filter,
          rw (result, read_matches-ok loads f file all found) (cut-IsNewest n _),
        )
    | inr nothing ↦ absurd (ground (arith, h, small, nothing))
  ]
]
