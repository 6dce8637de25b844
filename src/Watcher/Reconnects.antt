-- ===== src/Watcher/Reconnects.antt =====
-- How long `run` waits between its connections.
use mcp_kubernetes_platform.Prelude.{
  ℕ, zero, suc, ◌+◌, ◌≡◌, refl, ◌∙◌, ap, List, [], ◌∷◌, arith, ◌++◌, sym, append_assoc, length,
  Bool, true, false, Bool-cases, inl, inr, ltb, eqb, if◌then◌else◌, All,
}
use mcp_kubernetes_platform.Watcher.Stream.{
  Ending, closed, other_error, api_error, Reconnect, delays_of_backoff, delay_at, reconnect,
  reconnects,
}

-- the documented doubling, up to half a minute
abbrev pub doubled : ℕ → ℕ
doubled zero = 1
doubled (suc n) = doubled n + doubled n

abbrev pub schedule : ℕ → ℕ
schedule n = if ltb n 5 then doubled n else 30

-- the delays of so many failures in a row, the last first, when `k` went before
abbrev pub schedules : ℕ → ℕ → List ℕ
schedules k zero = []
schedules k (suc n) = schedules (suc k) n ++ schedule k ∷ []

abbrev pub is_failure : Ending → Bool
is_failure closed = false
is_failure other_error = true
is_failure (api_error status) = true

delay_at-schedule : (n : ℕ) → delay_at delays_of_backoff n ≡ schedule n
unfolding delay_at
delay_at-schedule zero = refl
delay_at-schedule (suc zero) = refl
delay_at-schedule (suc (suc zero)) = refl
delay_at-schedule (suc (suc (suc zero))) = refl
delay_at-schedule (suc (suc (suc (suc zero)))) = refl
delay_at-schedule (suc (suc (suc (suc (suc n))))) = ground arith

failure-slept :
    (e : Ending) (r : Reconnect)
    → is_failure e ≡ true
    → ((reconnect e r).attempt ≡ suc r.attempt)
      × ((reconnect e r).delays ≡ schedule r.attempt ∷ r.delays)
unfolding reconnect
failure-slept closed r h = cc
failure-slept other_error r h = (refl, ap (λ d. d ∷ r.delays) (delay_at-schedule r.attempt))
failure-slept (api_error status) r h = elim (Bool-cases (eqb status 410)) [
  | inl gone ↦ rw gone (refl, ap (λ d. d ∷ r.delays) (delay_at-schedule r.attempt))
  | inr other ↦ rw other (refl, ap (λ d. d ∷ r.delays) (delay_at-schedule r.attempt))
]

-- Failures in a row are waited for 1, 2, 4, 8 and 16 seconds and then for 30 each time, counted
-- from the failures since the last connection that closed.
pub reconnects-schedules :
    (es : List Ending) (r : Reconnect)
    → All (λ e. is_failure e ≡ true) es
    → ((reconnects es r).attempt ≡ r.attempt + length es)
      × ((reconnects es r).delays ≡ schedules r.attempt (length es) ++ r.delays)
unfolding reconnects
reconnects-schedules [] r h = (omega arith, refl)
reconnects-schedules (e ∷ es) r h =
    let (more, first) = failure-slept e r h.0 in
    let (attempts, delays) = reconnects-schedules es (reconnect e r) h.1 in
    (
      attempts ∙ ap (λ n. n + length es) more ∙ omega arith,
      delays
          ∙ ap (λ n. schedules n (length es) ++ (reconnect e r).delays) more
          ∙ ap (λ ds. schedules (suc r.attempt) (length es) ++ ds) first
          ∙ sym (
              append_assoc (schedules (suc r.attempt) (length es)) (schedule r.attempt ∷ [])
                r.delays),
    )
