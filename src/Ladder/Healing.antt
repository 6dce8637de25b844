-- ===== src/Ladder/Healing.antt =====
-- What the verdict HEALED rests on.
use mcp_kubernetes_platform.Prelude.{
  ℕ, zero, suc, ◌+◌, ◌*◌, ◌≡◌, inl, inr, refl, sym, ap, ◌∙◌, Bool, true, false, some, ◌∷◌, ltb,
  Bool-cases,
}
use mcp_kubernetes_platform.Prelude.Effects.{Result, ok, raised, continue}
use mcp_kubernetes_platform.Ladder.Types.{
  second, watch_healing, healed, LadderError, utcnow, monotonic, sleep, Outside, World, Action,
  watch_timeout_seconds,
}
use mcp_kubernetes_platform.Ladder.Methods.{set_state}
use mcp_kubernetes_platform.Ladder.Watch.{
  read_clock, pause, poll, judge, watch_loop, watchdog_from, watchdog, watch,
}
use mcp_kubernetes_platform.Ladder.Transitions.{poll-session}

module _ (env : Outside) (ts i deadline : ℕ) where
  -- The world at the reading after this one: a sleep, and a look at the clock.
  abbrev pub rest : World → World
  rest a = record a { calls = monotonic ∷ sleep (i * second) ∷ a.calls }

  abbrev pub second_poll : World → Result LadderError Bool × World
  second_poll a = poll env ts (rest (poll env ts a).1)

  -- Two readings in a row, a sleep apart, were healthy; the deadline had not passed at the
  -- second, and nothing was called after it but the clock for `updated_at`.
  pub record HealedTwice (final : World) : Type 0 where
    pub first : World
    pub first_healthy : (poll env ts first).0 ≡ ok true
    pub second_healthy : (second_poll first).0 ≡ ok true
    pub in_time : ltb (env.clock (sleep (i * second) ∷ (poll env ts first).1.calls)) deadline ≡ true
    pub last : final.calls ≡ utcnow ∷ (second_poll first).1.calls

  abbrev pub loop : ℕ → ℕ → Action Unit
  loop fuel n = watch_loop env fuel ts i deadline n

  -- The loop has not ended by its verdict HEALED, or it was right to.
  abbrev pub Backed : World → Type 0
  Backed w = (w.session.state ≡ healed) → HealedTwice w

  still_watching :
      (w : World)
      → w.session.state ≡ watch_healing
      → (poll env ts w).1.session.state ≡ watch_healing
  still_watching w h = ap (λ s. s.state) (poll-session env ts w) ∙ h

  -- after a first healthy reading at `a`, by the second one
  after_second :
      (fuel : ℕ) (a : World)
      → ((w : World) → w.session.state ≡ watch_healing → Backed (loop fuel 0 w).1)
      → (poll env ts a).0 ≡ ok true
      → a.session.state ≡ watch_healing
      → ltb (env.clock (sleep (i * second) ∷ (poll env ts a).1.calls)) deadline ≡ true
      → (r : Result LadderError Bool × World) → r ≡ second_poll a
      → Backed (continue r.0 (judge env i (loop fuel) 1) r.1).1
  unfolding judge set_state pause
  after_second fuel a ih fine h early (ok true, w) e = λ _. record {
    first = a;
    first_healthy = fine;
    second_healthy = sym (ap (λ r. r.0) e);
    in_time = early;
    last = ap (λ r. utcnow ∷ r.1.calls) e;
  }
  after_second fuel a ih fine h early (ok false, w) e =
      ih _ (
        ap (λ r. r.1.session.state) e
        ∙ still_watching (rest (poll env ts a).1) (still_watching a h))
  after_second fuel a ih fine h early (raised x, w) e = λ done.
      let same : w.session.state ≡ watch_healing =
        ap (λ r. r.1.session.state) e
        ∙ still_watching (rest (poll env ts a).1) (still_watching a h) in
      cc

  -- after a first healthy reading, at the top of the loop
  from_one :
      (fuel : ℕ) (a : World)
      → ((w : World) → w.session.state ≡ watch_healing → Backed (loop fuel 0 w).1)
      → (poll env ts a).0 ≡ ok true
      → a.session.state ≡ watch_healing
      → Backed (loop (suc fuel) 1 (pause env (i * second) (poll env ts a).1).1).1
  unfolding watch_loop read_clock set_state pause
  from_one fuel a ih fine h =
      elim (Bool-cases (ltb (env.clock (sleep (i * second) ∷ (poll env ts a).1.calls)) deadline)) [
        | inl early ↦ rw early (after_second fuel a ih fine h early (second_poll a) refl)
        | inr late ↦ rw late (λ done. cc)
      ]

  out_of_rounds : (n : ℕ) (w : World) → w.session.state ≡ watch_healing → Backed (loop zero n w).1
  unfolding watch_loop
  out_of_rounds n w h = λ done. cc

  -- the first reading, with no healthy one before it
  after_poll :
      (fuel : ℕ) (a : World)
      → ((w : World) → w.session.state ≡ watch_healing → Backed (loop fuel 0 w).1)
      → ((poll env ts a).0 ≡ ok true
          → Backed (loop fuel 1 (pause env (i * second) (poll env ts a).1).1).1)
      → a.session.state ≡ watch_healing
      → (r : Result LadderError Bool) → r ≡ (poll env ts a).0
      → Backed (continue r (judge env i (loop fuel) 0) (poll env ts a).1).1
  unfolding judge pause
  after_poll fuel a ih one h (ok true) e = one (sym e)
  after_poll fuel a ih one h (ok false) e = ih _ (still_watching a h)
  after_poll fuel a ih one h (raised x) e =
      λ done. let same : (poll env ts a).1.session.state ≡ watch_healing = still_watching a h in cc

  pub loop-HealedTwice :
      (fuel : ℕ) (w : World) → w.session.state ≡ watch_healing → Backed (loop fuel 0 w).1
  unfolding watch_loop read_clock set_state pause
  loop-HealedTwice zero w h = out_of_rounds 0 w h
  loop-HealedTwice (suc zero) w h =
      let a : World = record w { calls = monotonic ∷ w.calls } in
      elim (Bool-cases (ltb (env.clock w.calls) deadline)) [
        | inl early ↦ rw early (
            after_poll zero a (out_of_rounds 0) (λ _. out_of_rounds 1 _ (still_watching a h)) h
              (poll env ts a).0 refl)
        | inr late ↦ rw late (λ done. cc)
      ]
  loop-HealedTwice (suc (suc fuel)) w h =
      let a : World = record w { calls = monotonic ∷ w.calls } in
      elim (Bool-cases (ltb (env.clock w.calls) deadline)) [
        | inl early ↦ rw early (
            after_poll (suc fuel) a (loop-HealedTwice (suc fuel))
              (λ fine. from_one fuel a (loop-HealedTwice fuel) fine h) h (poll env ts a).0 refl)
        | inr late ↦ rw late (λ done. cc)
      ]

-- A watch ends with HEALED only on two healthy readings in a row, thirty seconds of sleep apart,
-- the second within 300 seconds of the start by the monotonic clock.
pub watch-HealedTwice :
    (env : Outside) (fuel ts : ℕ) (w : World)
    → w.session.restart_ts ≡ some ts
    → (watch env fuel w).1.session.state ≡ healed
    → HealedTwice env ts 30
        (env.clock (utcnow ∷ w.calls) + watch_timeout_seconds * second)
        (watch env fuel w).1
unfolding watch watchdog watchdog_from set_state read_clock
watch-HealedTwice env fuel ts w e = simp e (loop-HealedTwice env ts 30 _ fuel _ refl)
