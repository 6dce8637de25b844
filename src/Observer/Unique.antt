-- ===== src/Observer/Unique.antt =====
-- `run_safe` returns each fingerprint once.
use mcp_kubernetes_platform.Prelude.{
  ℕ, suc, ◌≡◌, ap, sym, ◌∙◌, true, String, ◌==◌, List, [], ◌∷◌, map, arith, is_in, eq_iff, inl, inr,
  Bool-cases, if◌then◌else◌,
}
use mcp_kubernetes_platform.Prelude.Effects.{ok}
use mcp_kubernetes_platform.Observer.Findings.{Finding, fingerprint, dedup, run_safe}

-- how often a text stands in a list
abbrev pub times : String → List String → ℕ
times s [] = 0
times s (x ∷ xs) = let rest = times s xs in if s == x then suc rest else rest

module _ (hexdigest : String → String) where
  abbrev pub fingerprints : List Finding → List String
  fingerprints fs = map (fingerprint hexdigest) fs

  dedup-times :
      (fp : String) (fs : List Finding) (seen : List String)
      → times fp (fingerprints (dedup hexdigest seen fs))
        ≡ (if is_in fp seen then 0 else if is_in fp (fingerprints fs) then 1 else 0)
  unfolding dedup
  dedup-times fp [] seen = ground arith
  dedup-times fp (f ∷ fs) seen =
      let mine = fingerprint hexdigest f in
      elim (Bool-cases (fp == mine)) [
        | inl same ↦
            let e : fp ≡ mine = (eq_iff fp mine).0 same in
            ground (
              arith,
              same,
              ap (λ s. is_in s seen) e,
              dedup-times fp fs seen,
              dedup-times fp fs (mine ∷ seen),
            )
        | inr other ↦ ground (arith, other, dedup-times fp fs seen, dedup-times fp fs (mine ∷ seen))
      ]

-- When `pre_check` holds and the analyzer returns findings, `run_safe` returns findings in which each
-- fingerprint of the analyzer's stands exactly once, and no other.
pub run_safe-times :
    (hexdigest : String → String) (findings kept : List Finding) (fp : String)
    → run_safe hexdigest (ok true) (ok findings) ≡ ok kept
    → times fp (fingerprints hexdigest kept)
      ≡ (if is_in fp (fingerprints hexdigest findings) then 1 else 0)
unfolding run_safe
run_safe-times hexdigest findings kept fp h =
    let e : dedup hexdigest [] findings ≡ kept = cc h in
    ap (λ fs. times fp (fingerprints hexdigest fs)) (sym e) ∙ dedup-times hexdigest fp findings []
