-- ===== src/Caches/Counts.antt =====
-- What an upsert does to each fingerprint.
use mathlib.Core.Path.{subst}
use mcp_kubernetes_platform.Prelude.{
  ◌≡◌, ◌⊎◌, refl, sym, ap, ◌∙◌, Bool, true, false, String, ◌==◌, eq_iff, Option-cases, Option, none,
  some, List, [], ◌∷◌, ◌++◌, any, is_in, inl, inr, Bool-cases, if◌then◌else◌,
}
use mcp_kubernetes_platform.Prelude.Effects.{Result, ok, raised}
use mcp_kubernetes_platform.Caches.Store.{
  StoredFinding, severities, StoreError, bad_severity, seen_again, update_seen,
  get_finding_by_fingerprint, finding_fingerprint, new_finding, upsert_row, returning,
  upsert_finding,
}

-- the row of a fingerprint after it was upserted with `r`
abbrev pub upserted : StoredFinding → Option StoredFinding → Option StoredFinding
upserted r none = some r
upserted r (some old) = some (seen_again r.last_seen old)

get-update_seen :
    (fp now : String) (rows : List StoredFinding) (r : StoredFinding)
    → get_finding_by_fingerprint fp rows ≡ some r
    → get_finding_by_fingerprint fp (update_seen fp now rows) ≡ some (seen_again now r)
unfolding get_finding_by_fingerprint update_seen seen_again
get-update_seen fp now [] r h = absurd (cc h)
get-update_seen fp now (x ∷ rows) r h = elim (Bool-cases (x.fingerprint_sha256 == fp)) [
  | inl same ↦ let e : x ≡ r = cc (h, same) in rw (same, same) (ap (λ y. some (seen_again now y)) e)
  | inr other ↦ rw (other, other) (get-update_seen fp now rows r (cc (h, other)))
]

get-update_other :
    (fp now q : String) (rows : List StoredFinding)
    → (fp == q) ≡ false
    → get_finding_by_fingerprint q (update_seen fp now rows) ≡ get_finding_by_fingerprint q rows
unfolding get_finding_by_fingerprint update_seen seen_again
get-update_other fp now q [] h = refl
get-update_other fp now q (x ∷ rows) h = elim (Bool-cases (x.fingerprint_sha256 == fp)) [
  | inl same ↦
      let e : x.fingerprint_sha256 ≡ fp = (eq_iff x.fingerprint_sha256 fp).0 same in
      let not_q : (x.fingerprint_sha256 == q) ≡ false = ap (λ t. t == q) e ∙ h in
      rw (same, not_q) refl
  | inr other ↦ elim (Bool-cases (x.fingerprint_sha256 == q)) [
    | inl it ↦ rw (other, it) refl
    | inr not_it ↦ rw (other, not_it) (get-update_other fp now q rows h)
  ]
]

get-append :
    (q : String) (rows : List StoredFinding) (r : StoredFinding)
    → get_finding_by_fingerprint q rows ≡ none
    → get_finding_by_fingerprint q (rows ++ r ∷ [])
      ≡ (if r.fingerprint_sha256 == q then some r else none)
unfolding get_finding_by_fingerprint
get-append q [] r h = refl
get-append q (x ∷ rows) r h = elim (Bool-cases (x.fingerprint_sha256 == q)) [
  | inl it ↦ absurd (cc (h, it))
  | inr not_it ↦ rw not_it (get-append q rows r (cc (h, not_it)))
]

get-append_there :
    (q : String) (rows : List StoredFinding) (r x : StoredFinding)
    → get_finding_by_fingerprint q rows ≡ some x
    → get_finding_by_fingerprint q (rows ++ r ∷ []) ≡ some x
unfolding get_finding_by_fingerprint
get-append_there q [] r x h = absurd (cc h)
get-append_there q (y ∷ rows) r x h = elim (Bool-cases (y.fingerprint_sha256 == q)) [
  | inl it ↦ rw it (cc (h, it))
  | inr not_it ↦ rw not_it (get-append_there q rows r x (cc (h, not_it)))
]

get-append_other :
    (q : String) (rows : List StoredFinding) (r : StoredFinding)
    → (r.fingerprint_sha256 == q) ≡ false
    → get_finding_by_fingerprint q (rows ++ r ∷ []) ≡ get_finding_by_fingerprint q rows
get-append_other q rows r other = elim (Option-cases (get_finding_by_fingerprint q rows)) [
  | inl nothing ↦ get-append q rows r nothing ∙ rw (other, nothing) refl
  | inr there ↦ get-append_there q rows r there.0 there.1 ∙ sym there.1
]

-- a fingerprint is found exactly if some row has it
any-get :
    (fp : String) (rows : List StoredFinding)
    → ((any (λ x. x.fingerprint_sha256 == fp) rows ≡ true)
        × ((r : StoredFinding) × (get_finding_by_fingerprint fp rows ≡ some r)))
      ⊎ ((any (λ x. x.fingerprint_sha256 == fp) rows ≡ false)
          × (get_finding_by_fingerprint fp rows ≡ none))
unfolding get_finding_by_fingerprint
any-get fp [] = inr (refl, refl)
any-get fp (x ∷ rows) = elim (Bool-cases (x.fingerprint_sha256 == fp)) [
  | inl it ↦ inl (rw it refl, (x, rw it refl))
  | inr not_it ↦ elim (any-get fp rows) [
    | inl there ↦ inl (rw not_it there.0, (there.1.0, rw not_it there.1.1))
    | inr nowhere ↦ inr (rw not_it nowhere.0, rw not_it nowhere.1)
  ]
]

abbrev insert_or_update : StoredFinding → List StoredFinding → Bool → List StoredFinding
insert_or_update r rows seen =
    if seen then update_seen r.fingerprint_sha256 r.last_seen rows else rows ++ r ∷ []

upsert_row-cases :
    (r : StoredFinding) (rows : List StoredFinding)
    → (upsert_row r rows ≡ raised bad_severity)
      ⊎ (upsert_row r rows
          ≡ ok (
              insert_or_update r rows
                (any (λ x. x.fingerprint_sha256 == r.fingerprint_sha256) rows)))
unfolding upsert_row
upsert_row-cases r rows = elim (Bool-cases (is_in r.severity severities)) [
  | inr unknown ↦ inl (rw (upsert_row, unknown) refl)
  | inl known ↦
      inr (elim (Bool-cases (any (λ x. x.fingerprint_sha256 == r.fingerprint_sha256) rows)) [
        | inl there ↦ rw (upsert_row, known, there) refl
        | inr nowhere ↦ rw (upsert_row, known, nowhere) refl
      ])
]

upsert_row-get :
    (r : StoredFinding) (rows after : List StoredFinding) (q : String)
    → upsert_row r rows ≡ ok after
    → get_finding_by_fingerprint q after ≡ (
        if r.fingerprint_sha256 == q
        then upserted r (get_finding_by_fingerprint q rows)
        else get_finding_by_fingerprint q rows)
upsert_row-get r rows after q h = elim (upsert_row-cases r rows) [
  | inl bad ↦ absurd (cc (h, bad))
  | inr good ↦ elim (any-get r.fingerprint_sha256 rows) [
    | inl there ↦
        let e : update_seen r.fingerprint_sha256 r.last_seen rows ≡ after =
          cc (h, good, ap (insert_or_update r rows) there.0) in
        elim (Bool-cases (r.fingerprint_sha256 == q)) [
          | inl same ↦
              let p : r.fingerprint_sha256 ≡ q = (eq_iff r.fingerprint_sha256 q).0 same in
              let found =
                subst (λ k. get_finding_by_fingerprint k rows ≡ some there.1.0) p there.1.1 in
              let got =
                subst
                  (λ k.
                    get_finding_by_fingerprint k (update_seen r.fingerprint_sha256 r.last_seen rows)
                    ≡ some (seen_again r.last_seen there.1.0))
                  p (get-update_seen r.fingerprint_sha256 r.last_seen rows there.1.0 there.1.1) in
              ap (get_finding_by_fingerprint q) (sym e) ∙ (got ∙ rw (same, found) refl)
          | inr other ↦
              ap (get_finding_by_fingerprint q) (sym e)
              ∙ rw other (get-update_other r.fingerprint_sha256 r.last_seen q rows other)
        ]
    | inr nowhere ↦
        let e : rows ++ r ∷ [] ≡ after = cc (h, good, ap (insert_or_update r rows) nowhere.0) in
        elim (Bool-cases (r.fingerprint_sha256 == q)) [
          | inl same ↦
              let p : r.fingerprint_sha256 ≡ q = (eq_iff r.fingerprint_sha256 q).0 same in
              let none_yet = subst (λ k. get_finding_by_fingerprint k rows ≡ none) p nowhere.1 in
              ap (get_finding_by_fingerprint q) (sym e)
              ∙ (get-append q rows r none_yet ∙ rw (same, none_yet) refl)
          | inr other ↦
              ap (get_finding_by_fingerprint q) (sym e) ∙ rw other (get-append_other q rows r other)
        ]
  ]
]

returning-ok :
    (mine fp : String) (r : Result StoreError (List StoredFinding)) (after : List StoredFinding)
    → returning mine r ≡ ok (fp, after)
    → (mine ≡ fp) × (r ≡ ok after)
returning-ok mine fp (raised e) after h = absurd (cc h)
returning-ok mine fp (ok rows) after h =
    let same : ◌≡◌ {A = String × List StoredFinding} (mine, rows) (fp, after) = cc h in
    (ap (λ t. t.0) same, ap (λ t. ok t.1) same)

-- When an upsert goes through, the row of its fingerprint is the new row if there was none, and else the
-- old one with the time of the call and one more occurrence; every other fingerprint keeps its row.
pub upsert_finding-get :
    (hexdigest : String → String) (id now ns kind name severity root_cause_hash : String)
    (rows after : List StoredFinding) (fp q : String)
    → upsert_finding hexdigest id now ns kind name severity root_cause_hash rows ≡ ok (fp, after)
    → get_finding_by_fingerprint q after ≡ (
        if fp == q
        then upserted
            (new_finding id fp now ns kind name severity root_cause_hash)
            (get_finding_by_fingerprint q rows)
        else get_finding_by_fingerprint q rows)
unfolding upsert_finding new_finding
upsert_finding-get hexdigest id now ns kind name severity root_cause_hash rows after fp q h =
    let mine = finding_fingerprint hexdigest ns kind name severity root_cause_hash in
    let row = new_finding id mine now ns kind name severity root_cause_hash in
    let parts = returning-ok mine fp (upsert_row row rows) after h in
    subst
      (λ k. get_finding_by_fingerprint q after ≡ (
        if k == q
        then upserted (new_finding id k now ns kind name severity root_cause_hash)
            (get_finding_by_fingerprint q rows)
        else get_finding_by_fingerprint q rows))
      parts.0 (upsert_row-get row rows after q parts.1)
