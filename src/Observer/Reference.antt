-- ===== src/Observer/Reference.antt =====
-- The window against an auxiliary loop on a history that nothing is pruned from.
use mcp_kubernetes_platform.Prelude.{
  ℕ, ◌+◌, ◌≤◌, append_assoc, ◌≡◌, refl, sym, ap, ◌∙◌, true, false, String, ◌==◌, List, [], ◌∷◌,
  ◌++◌, arith, any, All-append, All-map, inl, inr, Bool-cases, if◌then◌else◌,
}
use mcp_kubernetes_platform.Observer.Loop.{
  SeenEntry, dedup_key, prune, Handling, Observed, report_new, process_finding, process_findings,
}
use mcp_kubernetes_platform.Observer.Window.{
  bars, Sorted, Sorted-above, Sorted-snoc, prune-bars, prune-Sorted, cut, cut-prune, Expired,
  cut-Expired, any-bars-Expired,
}

-- A finding is reported unless an entry of the whole history bars it.
module _ (repr hexdigest : String → String) (window : ℕ) where
  abbrev pub process_with_history : List Handling → Observed → Observed
  process_with_history [] s = s
  process_with_history (h ∷ hs) s =
      let barred = process_with_history hs s in
      let reported = process_with_history hs (report_new repr hexdigest window h s.seen s) in
      if any (bars h.now (dedup_key h.finding)) s.seen then barred else reported

-- The clock does not go back.
abbrev pub Forward : ℕ → List Handling → Type 0
Forward last [] = Unit
Forward last (h ∷ hs) = (last ≤ h.now) × (h.now ≤ h.marked_at) × Forward h.marked_at hs

Forward-later : (a b : ℕ) (hs : List Handling) → a ≤ b → Forward b hs → Forward a hs
Forward-later a b [] less f = tt
Forward-later a b (h ∷ hs) less f = (omega (arith, less, f.0), f.1, f.2)

module _ (repr hexdigest : String → String) (window : ℕ) where
  -- A state of the program and one of the reference: the reference has expired entries in front.
  record Matches (last : ℕ) (s r : Observed) : Type 0 where
    old : List SeenEntry
    split : r.seen ≡ old ++ s.seen
    expired : Expired last old
    sorted : Sorted 0 (last + window) s.seen
    reports : s.reports ≡ r.reports
    audit : s.audit ≡ r.audit

  barred-same :
      (now last : ℕ) (key : String) (s r : Observed)
      → Matches last s r
      → last ≤ now
      → any (λ e. e.key == key) (prune now s.seen) ≡ any (bars now key) r.seen
  barred-same now last key s r m later =
      prune-bars now 0 (last + window) key s.seen m.sorted
      ∙ (sym (
            any-bars-Expired now key m.old s.seen
              (All-map (λ e h. omega (arith, h, later)) m.old m.expired))
          ∙ ap (any (bars now key)) (sym m.split))

  pruned-Matches :
      (now last : ℕ) (s r : Observed)
      → Matches last s r
      → last ≤ now
      → Matches now (record s { seen = prune now s.seen }) r
  pruned-Matches now last s r m later = record {
    old = m.old ++ cut now s.seen;
    split =
        m.split
        ∙ (ap (λ es. m.old ++ es) (sym (cut-prune now s.seen))
            ∙ sym (append_assoc m.old (cut now s.seen) (prune now s.seen)));
    expired =
        All-append (λ e. e.expires_at ≤ now) m.old (cut now s.seen)
          (All-map (λ e h. omega (arith, h, later)) m.old m.expired) (cut-Expired now s.seen);
    sorted =
        Sorted-above 0 (last + window) (now + window) (prune now s.seen) (omega (arith, later))
          (prune-Sorted now 0 (last + window) s.seen m.sorted);
    reports = m.reports;
    audit = m.audit;
  }

  new-Matches :
      (h : Handling) (s r : Observed)
      → Matches h.now s r
      → h.now ≤ h.marked_at
      → Matches h.marked_at
          (report_new repr hexdigest window h s.seen s)
          (report_new repr hexdigest window h r.seen r)
  unfolding report_new
  new-Matches h s r m later =
      let entry : SeenEntry = record {
        expires_at = h.marked_at + window;
        key = dedup_key h.finding;
      } in
      record {
        old = m.old;
        split = ap (λ es. es ++ entry ∷ []) m.split ∙ append_assoc m.old s.seen (entry ∷ []);
        expired = All-map (λ e k. omega (arith, k, later)) m.old m.expired;
        sorted =
            Sorted-snoc 0 (h.now + window) (h.marked_at + window) s.seen entry m.sorted
              (omega arith) (omega (arith, later)) (omega arith);
        reports = rw m.reports refl;
        audit = rw m.audit refl;
      }

  skipped :
      (h : Handling) (s : Observed)
      → any (λ e. e.key == dedup_key h.finding) (prune h.now s.seen) ≡ true
      → process_finding repr hexdigest window h s ≡ record s { seen = prune h.now s.seen }
  unfolding process_finding
  skipped h s e = rw (process_finding, e) refl

  reported :
      (h : Handling) (s : Observed)
      → any (λ e. e.key == dedup_key h.finding) (prune h.now s.seen) ≡ false
      → process_finding repr hexdigest window h s
        ≡ report_new repr hexdigest window h
            (prune h.now s.seen)
            (record s { seen = prune h.now s.seen })
  unfolding process_finding report_new
  reported h s e = rw (process_finding, e) refl

  same_reports :
      (hs : List Handling) (last : ℕ) (s r : Observed)
      → Matches last s r
      → Forward last hs
      → ((process_findings repr hexdigest window hs s).reports
          ≡ (process_with_history repr hexdigest window hs r).reports)
        × ((process_findings repr hexdigest window hs s).audit
            ≡ (process_with_history repr hexdigest window hs r).audit)
  unfolding process_findings
  same_reports [] last s r m f = (m.reports, m.audit)
  same_reports (h ∷ hs) last s r m f =
      let pruned = pruned-Matches h.now last s r m f.0 in
      let same = barred-same h.now last (dedup_key h.finding) s r m f.0 in
      elim (Bool-cases (any (bars h.now (dedup_key h.finding)) r.seen)) [
        | inl barred ↦
            rw (process_findings, skipped h s (same ∙ barred), barred)
              (same_reports hs h.now _ r pruned (Forward-later h.now h.marked_at hs f.1 f.2))
        | inr new ↦
            rw (process_findings, reported h s (same ∙ new), new)
              (same_reports hs h.marked_at _ _ (new-Matches h _ r pruned f.1) f.2)
      ]

abbrev pub none_seen : List String → List String → Observed
none_seen reports audit = record { seen = []; reports = reports; audit = audit }

pub same_from_none :
    (repr hexdigest : String → String) (window : ℕ) (hs : List Handling)
    (reports audit : List String)
    → Forward 0 hs
    → ((process_findings repr hexdigest window hs (none_seen reports audit)).reports
        ≡ (process_with_history repr hexdigest window hs (none_seen reports audit)).reports)
      × ((process_findings repr hexdigest window hs (none_seen reports audit)).audit
          ≡ (process_with_history repr hexdigest window hs (none_seen reports audit)).audit)
same_from_none repr hexdigest window hs reports audit f =
    same_reports repr hexdigest window hs 0 (none_seen reports audit) (none_seen reports audit)
      (record { old = []; split = refl; expired = tt; sorted = tt; reports = refl; audit = refl }) f
