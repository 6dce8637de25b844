-- ===== src/Watchdog/Verdicts.antt =====
-- What stands behind the verdict of `run_watchdog`.
use mcp_kubernetes_platform.Prelude.{
  ℤ, sym, ℕ, ◌≡◌, refl, ap, ◌∙◌, Bool, true, false, String, Option, none, some, List, ◌∷◌, eqb,
  arith, eqb→eq, inl, inr, Bool-cases, if◌then◌else◌,
}
use mcp_kubernetes_platform.Prelude.Effects.{Result, ok, raised, continue}
use mcp_kubernetes_platform.Watchdog.Data.{
  Verdict, healed, still_sick, deleted, namespace_deleted, timeout, Pod, SeenEvent, History,
  Outside, WatchError, World, Action, read_pod, difference,
}
use mcp_kubernetes_platform.Watchdog.Checks.{
  sum_restart_counts, is_ready, recent_at, phase_is, is_zero, read_utc, recent_warning_events,
  is_healed, is_still_sick,
}
use mcp_kubernetes_platform.Watchdog.Loop.{Polled, Round, ask_pod, check_health}

-- if the call returns, its value and the world it leaves have the property
abbrev pub Post : {A : Type 0} → (A → World → Type 0) → Result WatchError A × World → Type 0
Post Q (ok a, w) = Q a w
Post Q (raised e, w) = Unit

pub Post-bind :
    {A B : Type 0} (P : A → World → Type 0) (Q : B → World → Type 0) (f : A → Action B)
    → ((a : A) (w : World) → P a w → Post Q (f a w))
    → (r : Result WatchError A) (w : World) → Post P (r, w)
    → Post Q (continue r f w)
Post-bind P Q f k (ok a) w h = k a w h
Post-bind P Q f k (raised e) w h = tt

is_zero-difference : (a b : ℕ) → is_zero (difference a b) ≡ true → a ≡ b
unfolding is_zero
is_zero-difference a b h = ground (arith, h)

module _ (env : Outside) where
  -- a pod that was read: running and ready
  pub record IsRunning : Type 0 where
    pub pod : Pod
    pub read_at : History
    pub read : env.pod read_at ≡ ok pod
    pub running : phase_is pod "Running" ≡ true
    pub ready : is_ready pod ≡ true

  -- such a pod, with as many restarts as the pod that was read at first, after the calls `start`,
  -- and, right after it was read, no warning of the last minute among the events
  pub record IsHealthy (start : History) (delta : ℤ) (es : List SeenEvent) : Type 0 where
    pub seen : IsRunning
    pub first : Pod
    pub first_read : env.pod start ≡ ok first
    pub as_many : sum_restart_counts seen.pod ≡ sum_restart_counts first
    pub no_restart : is_zero delta ≡ true
    pub no_warning : recent_at 60 (env.utc (read_pod ∷ seen.read_at)) es ≡ false

  -- a reading that found no pod
  abbrev pub IsGone : Type 0
  IsGone = (h : History) × (env.pod h ≡ raised 404)

  -- What a verdict rests on; `timeout` rests on nothing.
  abbrev pub Backed : History → Option Verdict → ℤ → String → List SeenEvent → Type 0
  Backed start (some healed) delta phase es = IsHealthy start delta es
  Backed start (some deleted) delta phase es = IsGone
  Backed start (some namespace_deleted) delta phase es = phase ≡ "Unknown"
  Backed start (some timeout) delta phase es = ⊥
  Backed start (some still_sick) delta phase es = Unit
  Backed start none delta phase es = Unit

  abbrev pub RoundBacked : History → Round → World → Type 0
  RoundBacked start (o, v) w = Backed start o v.restart_count_delta v.final_phase w.events_seen

  abbrev pub Found : Option Pod → World → Type 0
  Found none w = IsGone
  Found (some p) w = (h : History) × (env.pod h ≡ ok p) × (w.calls ≡ read_pod ∷ h)

  pub ask_pod-Found : (w : World) → Post Found (ask_pod env w)
  unfolding ask_pod
  ask_pod-Found w = go (env.pod w.calls) refl
    where
      w' : World
      w' = record w { calls = read_pod ∷ w.calls }

      missing :
          (status : ℕ) (b : Bool)
          → eqb status 404 ≡ b
          → env.pod w.calls ≡ raised status
          → Post Found (if b then ok none else raised (WatchError.api_exception status), w')
      missing status true same e = (w.calls, e ∙ ap (λ s. raised s) (eqb→eq status 404 same))
      missing status false other e = tt

      go :
          (r : Result ℕ Pod)
          → env.pod w.calls ≡ r
          → Post Found (
            elim r [
              | ok pod ↦ ok (some pod)
              | raised status ↦
                  if eqb status 404 then ok none else raised (WatchError.api_exception status)
            ],
            w',
          )
      go (ok pod) e = (w.calls, e, refl)
      go (raised status) e = missing status (eqb status 404) refl e

  -- `_is_healed` says yes only of a healthy pod; `now` is the time that it reads
  abbrev pub Healthy : Pod → ℤ → ℕ → Bool → World → Type 0
  Healthy pod delta now true w =
      (phase_is pod "Running" ≡ true)
      × (is_ready pod ≡ true)
      × (is_zero delta ≡ true)
      × (recent_at 60 now w.events_seen ≡ false)
  Healthy pod delta now false w = Unit

  pub is_healed-Healthy :
      (pod : Pod) (delta : ℤ) (now : ℕ) (w : World)
      → env.utc w.calls ≡ now
      → Post (Healthy pod delta now) (is_healed env pod delta w)
  unfolding is_healed recent_warning_events read_utc
  is_healed-Healthy pod delta now w at = elim (Bool-cases (phase_is pod "Running")) [
    | inr e ↦ rw e tt
    | inl running ↦ elim (Bool-cases (is_ready pod)) [
      | inr e ↦ rw (running, e) tt
      | inl ready ↦ elim (Bool-cases (recent_at 60 (env.utc w.calls) w.events_seen)) [
        | inl e ↦ simp (running, ready, e) tt
        | inr calm ↦ elim (Bool-cases (is_zero delta)) [
          | inr e ↦ simp (running, ready, calm, e) tt
          | inl same ↦
              simp (running, ready, calm, same)
                (refl, refl, refl, ap (λ t. recent_at 60 t w.events_seen) (sym at) ∙ calm)
        ]
      ]
    ]
  ]

  pub check_health-Backed :
      (start : History) (first pod : Pod) (v : Polled) (h : History)
      → env.pod start ≡ ok first
      → v.restart_count_delta ≡ difference (sum_restart_counts pod) (sum_restart_counts first)
      → env.pod h ≡ ok pod
      → (b : Bool) (w : World) → Healthy pod v.restart_count_delta (env.utc (read_pod ∷ h)) b w
      → Post (RoundBacked start) (check_health env pod v b w)
  unfolding check_health
  check_health-Backed start first pod v h first_read delta read true w
        (running, ready, same, calm) =
      record {
        seen = record { pod = pod; read_at = h; read = read; running = running; ready = ready };
        first = first;
        first_read = first_read;
        as_many = is_zero-difference _ _ (ap is_zero (sym delta) ∙ same);
        no_restart = same;
        no_warning = calm;
      }
  check_health-Backed start first pod v h first_read delta read false w _ =
      Post-bind (λ b w. Unit) (RoundBacked start) _ (λ b w _. sick b w)
        (is_still_sick env pod v.restart_count_delta w).0
        (is_still_sick env pod v.restart_count_delta w).1 (any_post _)
    where
      any_post : {A : Type 0} (r : Result WatchError A × World) → Post (λ a w. Unit) r
      any_post (ok a, w) = tt
      any_post (raised e, w) = tt

      sick : (b : Bool) (w : World) → RoundBacked start (if b then some still_sick else none, v) w
      sick true w = tt
      sick false w = tt
