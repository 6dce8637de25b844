-- ===== src/Watchdog/Checks.antt =====
-- The helpers of src/auto_remediate/watchdog.py.
use mcp_kubernetes_platform.Prelude.{
  negsuc, pos, ℤ, ℕ, ◌+◌, ◌*◌, Bool, true, false, ◌&&◌, ◌||◌, not, String, Option, none, some, List,
  [], ◌∷◌, ◌++◌, ◌==◌, any, is_in, ltb, leb, eqb, get_or, if◌then◌else◌,
}
use mcp_kubernetes_platform.Prelude.Effects.{ok, pure, gets, ◌>>=◌}
use mcp_kubernetes_platform.Watchdog.Data.{
  second, ContainerStatus, Pod, SeenEvent, utcnow, Outside, Action,
}

-- `_poll_interval`, in seconds
unfoldable pub poll_interval : ℕ → ℕ
poll_interval elapsed =
    if ltb elapsed (60 * second) then 5 else if ltb elapsed (180 * second) then 15 else 30

unfoldable pub total_restarts : List ContainerStatus → ℕ
total_restarts [] = 0
total_restarts (cs ∷ rest) = get_or cs.restart_count 0 + total_restarts rest

-- `_sum_restart_counts`
unfoldable pub sum_restart_counts : Pod → ℕ
sum_restart_counts pod =
    total_restarts (get_or pod.container_statuses [] ++ get_or pod.init_container_statuses [])

-- `_is_ready`
unfoldable pub is_ready : Pod → Bool
is_ready pod = any (λ c. c.type == "Ready" && c.status == "True") (get_or pod.conditions [])

-- The loop of `_recent_warning_events` at a time; `ts >= now - window`, by an addition.
unfoldable pub recent_at : ℕ → ℕ → List SeenEvent → Bool
recent_at window_seconds now [] = false
recent_at window_seconds now (e ∷ es) =
    elim e.last_timestamp [ none ↦ false | some t ↦ leb now (t + window_seconds * second) ]
    || recent_at window_seconds now es

-- `pod.status.phase == s`
unfoldable pub phase_is : Pod → String → Bool
phase_is pod s = elim pod.phase [ none ↦ false | some p ↦ p == s ]

unfoldable pub is_zero : ℤ → Bool
is_zero (pos n) = eqb n 0
is_zero (negsuc n) = false

unfoldable pub is_positive : ℤ → Bool
is_positive (pos n) = ltb 0 n
is_positive (negsuc n) = false

abbrev pub sick_reasons : List String
sick_reasons = "CrashLoopBackOff" ∷ "OOMKilled" ∷ "Error" ∷ "ImagePullBackOff" ∷ "ErrImagePull" ∷ []

-- one status of the loop in `_is_still_sick`
unfoldable pub waits_sick : ContainerStatus → Bool
waits_sick cs = elim cs.waiting [
  | none ↦ false
  | some reason ↦ is_in (get_or reason "") sick_reasons
]

-- the tests of `_is_still_sick` that need no clock
unfoldable pub looks_sick : Pod → ℤ → Bool
looks_sick pod delta =
    phase_is pod "Failed"
    || phase_is pod "Unknown"
    || any waits_sick (get_or pod.container_statuses [])
    || is_positive delta

module _ (env : Outside) where
  -- datetime.utcnow()
  unfoldable pub read_utc : Action ℕ
  read_utc w = (ok (env.utc w.calls), record w { calls = utcnow ∷ w.calls })

  -- `_recent_warning_events`, with the default window
  unfoldable pub recent_warning_events : Action Bool
  recent_warning_events = do now ← read_utc; gets (λ w. recent_at 60 now w.events_seen)

  -- `_is_healed`
  unfoldable pub is_healed : Pod → ℤ → Action Bool
  is_healed pod delta =
      if not (phase_is pod "Running")
      then pure false
      else if not (is_ready pod)
      then pure false
      else (recent_warning_events >>= λ recent. pure (not recent && is_zero delta))

  -- The finalizers of a pod that terminates hold it for more than 90 seconds.
  unfoldable pub is_stuck : Option ℕ → List String → Action Bool
  is_stuck none fs = pure false
  is_stuck (some t) [] = pure false
  is_stuck (some t) (f ∷ fs) = read_utc >>= λ now. pure (ltb (t + 90 * second) now)

  -- `_is_still_sick`
  unfoldable pub is_still_sick : Pod → ℤ → Action Bool
  is_still_sick pod delta =
      if looks_sick pod delta
      then pure true
      else is_stuck pod.deletion_timestamp (get_or pod.finalizers [])
