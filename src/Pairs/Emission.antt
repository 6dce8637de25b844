-- ===== src/Pairs/Emission.antt =====
-- When a pair may be filed, and that a redacted pair holds no secrets.
use mcp_kubernetes_platform.Prelude.{
  ◌≡◌, ◌↔◌, refl, Bool, true, false, not, String, List, [], ◌∷◌, ◌++◌, map, All, All-append, is_in,
  if◌then◌else◌,
}
use mcp_kubernetes_platform.Prelude.Effects.{ok, raised}
use mcp_kubernetes_platform.Pairs.Redact.{redact}
use mcp_kubernetes_platform.Pairs.Redacted.{leaks, redact-leaks}
use mcp_kubernetes_platform.Pairs.Idempotent.{redact-redact}
use mcp_kubernetes_platform.Pairs.Issues.{
  RemediationAction, DpoPair, trading_namespaces, redact_action, redact_pair, DpoEmitSkipped,
  in_trading, no_rejected, not_done, is_dry_run, is_empty, check_emit_allowed,
}

-- the tests in their order, and the condition that all of them pass
first_failure :
    (e : DpoEmitSkipped) (trading empty done dry : Bool)
    → ((if trading
          then raised e
          else if empty
          then raised no_rejected
          else if not done
          then raised not_done
          else if dry
          then raised is_dry_run
          else ok tt)
        ≡ ok tt)
      ↔ ((trading ≡ false) × (empty ≡ false) × (done ≡ true) × (dry ≡ false))
first_failure e true empty done dry = (λ h. absurd (cc h), λ h. absurd (cc h.0))
first_failure e false true done dry = (λ h. absurd (cc h), λ h. absurd (cc h.1))
first_failure e false false false dry = (λ h. absurd (cc h), λ h. absurd (cc h.2))
first_failure e false false true true = (λ h. absurd (cc h), λ h. absurd (cc h.3))
first_failure e false false true false = (λ h. (refl, refl, refl, refl), λ h. refl)

-- `check_emit_allowed` lets a pair through exactly if its namespace is none of the trading namespaces, it
-- has a rejected action, the session is done and it was no dry run.
pub check_emit_allowed-ok_iff :
    (p : DpoPair) (dry_run session_done : Bool)
    → (check_emit_allowed p dry_run session_done ≡ ok tt) ↔ (
        (is_in p.context.namespace trading_namespaces ≡ false)
        × (is_empty p.rejected ≡ false)
        × (session_done ≡ true)
        × (dry_run ≡ false))
unfolding check_emit_allowed
check_emit_allowed-ok_iff p dry_run session_done =
    let trading = is_in p.context.namespace trading_namespaces in
    first_failure (in_trading p.context.namespace) trading (is_empty p.rejected) session_done
      dry_run

-- the texts of a pair that are redacted
abbrev pub commands : List RemediationAction → List String
commands as' = map (λ a. a.command) as'

abbrev pub evidence : DpoPair → List String
evidence p =
    p.chosen.command
    ∷ p.verification
    ∷ (commands p.rejected ++ (p.context.events ++ p.context.logs))

abbrev IsSafe : String → Type 0
IsSafe s = leaks s ≡ false

map-redact-IsSafe : (ss : List String) → All IsSafe (map redact ss)
map-redact-IsSafe [] = tt
map-redact-IsSafe (s ∷ ss) = (redact-leaks s, map-redact-IsSafe ss)

commands-IsSafe : (rs : List RemediationAction) → All IsSafe (commands (map redact_action rs))
unfolding redact_action
commands-IsSafe [] = tt
commands-IsSafe (r ∷ rs) = (redact-leaks r.command, commands-IsSafe rs)

map-redact-redact : (ss : List String) → map redact (map redact ss) ≡ map redact ss
map-redact-redact [] = refl
map-redact-redact (s ∷ ss) = rw (redact-redact s, map-redact-redact ss) refl

redact_action-redact_action :
    (a : RemediationAction) → redact_action (redact_action a) ≡ redact_action a
unfolding redact_action
redact_action-redact_action a = rw (redact-redact a.command) refl

map-redact_action :
    (rs : List RemediationAction) → map redact_action (map redact_action rs) ≡ map redact_action rs
map-redact_action [] = refl
map-redact_action (r ∷ rs) = rw (redact_action-redact_action r, map-redact_action rs) refl

-- In the commands, the events, the logs and the verification of a redacted pair each match of the pattern
-- has the value [REDACTED], and redacting the pair again changes nothing.
pub redact_pair-IsSafe :
    (p : DpoPair)
    → All (λ s. leaks s ≡ false) (evidence (redact_pair p))
      × (redact_pair (redact_pair p) ≡ redact_pair p)
unfolding redact_pair redact_action
redact_pair-IsSafe p = (
  (
    redact-leaks p.chosen.command,
    (
      redact-leaks p.verification,
      All-append IsSafe (commands (map redact_action p.rejected)) _ (commands-IsSafe p.rejected) (
          All-append IsSafe (map redact p.context.events) (map redact p.context.logs)
            (map-redact-IsSafe p.context.events) (map-redact-IsSafe p.context.logs)),
    ),
  ),
  rw
      (
        redact_action-redact_action p.chosen,
        map-redact_action p.rejected,
        map-redact-redact p.context.events,
        map-redact-redact p.context.logs,
        redact-redact p.verification,
      )
      refl,
)
