-- ===== src/Observer/Reported.antt =====
-- Which findings `_process_findings` reports.
use mathlib.Core.List.{map-append}
use mcp_kubernetes_platform.Prelude.{
  ℕ, ◌+◌, ◌≡◌, refl, sym, ap, ◌∙◌, Bool, ◌&&◌, String, ◌<>◌, ◌==◌, List, [], ◌∷◌, ◌++◌, map,
  append_assoc, append-nil, arith, any, ltb, inl, inr, Bool-cases, if◌then◌else◌,
}
use mcp_kubernetes_platform.Observer.Findings.{Finding}
use mcp_kubernetes_platform.Observer.Loop.{
  SeenEntry, dedup_key, Handling, Observed, summary, append_audit, report_new, process_findings,
}
use mcp_kubernetes_platform.Observer.Window.{bars}
use mcp_kubernetes_platform.Observer.Reference.{
  process_with_history, Forward, same_from_none, none_seen,
}

-- the text by which findings are told apart
abbrev pub place : Finding → String
place f =
    f.resource.namespace <> "/" <> f.resource.kind <> "/" <> f.resource.name <> "/" <> f.category

-- The finding was reported, and the window since then is not over.
abbrev pub is_repeat : ℕ → List Handling → Handling → Bool
is_repeat window earlier h =
    any (λ p. place p.finding == place h.finding && ltb h.now (p.marked_at + window)) earlier

-- The ones that are reported, where the `earlier` ones were.
abbrev pub chosen : ℕ → List Handling → List Handling → List Handling
chosen window earlier [] = []
chosen window earlier (h ∷ hs) =
    if is_repeat window earlier h
    then chosen window earlier hs
    else h ∷ chosen window (earlier ++ h ∷ []) hs

module _ (repr hexdigest : String → String) (window : ℕ) where
  abbrev pub lines : List Handling → List String
  lines [] = []
  lines (h ∷ hs) =
      if h.writable
      then (h.ts <> " " <> summary repr hexdigest window h.finding) ∷ lines hs
      else lines hs

  abbrev entry_of : Handling → SeenEntry
  entry_of h = record { expires_at = h.marked_at + window; key = dedup_key h.finding }

  bars-is_repeat :
      (h : Handling) (earlier : List Handling)
      → any (bars h.now (dedup_key h.finding)) (map entry_of earlier) ≡ is_repeat window earlier h
  unfolding dedup_key
  bars-is_repeat h [] = refl
  bars-is_repeat h (p ∷ ps) = ground (arith, bars-is_repeat h ps)

  report_new-seen :
      (h : Handling) (earlier : List Handling) (s : Observed)
      → s.seen ≡ map entry_of earlier
      → (report_new repr hexdigest window h s.seen s).seen ≡ map entry_of (earlier ++ h ∷ [])
  unfolding report_new
  report_new-seen h earlier s e =
      ap (λ es. es ++ entry_of h ∷ []) e ∙ sym (map-append entry_of earlier (h ∷ []))

  report_new-reports :
      (h : Handling) (s : Observed) (rest : List String)
      → (report_new repr hexdigest window h s.seen s).reports ++ rest
        ≡ s.reports ++ summary repr hexdigest window h.finding ∷ rest
  unfolding report_new
  report_new-reports h s rest =
      append_assoc s.reports (summary repr hexdigest window h.finding ∷ []) rest

  report_new-audit :
      (h : Handling) (s : Observed) (rest : List String)
      → (report_new repr hexdigest window h s.seen s).audit ++ rest
        ≡ s.audit
          ++ (if h.writable
              then (h.ts <> " " <> summary repr hexdigest window h.finding) ∷ rest
              else rest)
  unfolding report_new append_audit
  report_new-audit h s rest = elim (Bool-cases h.writable) [
    | inl can_write ↦
        rw can_write (
          append_assoc s.audit ((h.ts <> " " <> summary repr hexdigest window h.finding) ∷ []) rest)
    | inr unwritable ↦ rw unwritable refl
  ]

  -- The auxiliary loop after the `earlier` ones.
  history-chosen :
      (hs earlier : List Handling) (s : Observed)
      → s.seen ≡ map entry_of earlier
      → ((process_with_history repr hexdigest window hs s).reports
          ≡ s.reports
            ++ map (λ h. summary repr hexdigest window h.finding) (chosen window earlier hs))
        × ((process_with_history repr hexdigest window hs s).audit
            ≡ s.audit ++ lines (chosen window earlier hs))
  history-chosen [] earlier s e = (sym (append-nil s.reports), sym (append-nil s.audit))
  history-chosen (h ∷ hs) earlier s e =
      let seen_before : any (bars h.now (dedup_key h.finding)) s.seen ≡ is_repeat window earlier h =
        ap (any (bars h.now (dedup_key h.finding))) e ∙ bars-is_repeat h earlier in
      elim (Bool-cases (is_repeat window earlier h)) [
        | inl again ↦ rw (seen_before, again) (history-chosen hs earlier s e)
        | inr new ↦
            let r =
              history-chosen hs (earlier ++ h ∷ []) (report_new repr hexdigest window h s.seen s)
                (report_new-seen h earlier s e) in
            let rest = chosen window (earlier ++ h ∷ []) hs in
            rw (seen_before, new)
              (
                r.0
                    ∙ report_new-reports h s
                        (map (λ k. summary repr hexdigest window k.finding) rest),
                r.1 ∙ report_new-audit h s (lines rest),
              )
      ]

-- If the clock does not go back, `_process_findings`, starting with nothing seen, reports and audits,
-- in order, exactly the findings that are no repeat: those for which no finding with the same
-- namespace/kind/name/category was reported before with the window since then not over. The
-- audit file gets the line of each of them, but those that come while it cannot be written.
pub process_findings-chosen :
    (repr hexdigest : String → String) (window : ℕ) (hs : List Handling)
    (reports audit : List String)
    → Forward 0 hs
    → ((process_findings repr hexdigest window hs (none_seen reports audit)).reports
        ≡ reports ++ map (λ h. summary repr hexdigest window h.finding) (chosen window [] hs))
      × ((process_findings repr hexdigest window hs (none_seen reports audit)).audit
          ≡ audit ++ lines repr hexdigest window (chosen window [] hs))
process_findings-chosen repr hexdigest window hs reports audit f =
    let same = same_from_none repr hexdigest window hs reports audit f in
    let spec = history-chosen repr hexdigest window hs [] (none_seen reports audit) refl in
    (same.0 ∙ spec.0, same.1 ∙ spec.1)
