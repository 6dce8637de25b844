-- ===== src/Ladder/Termination.antt =====
-- With enough fuel the watch returns, and a session reaches a terminal state.
use mcp_kubernetes_platform.Prelude.{
  ℕ, zero, suc, ◌+◌, ◌*◌, ◌≤◌, ◌≡◌, ◌⊎◌, inl, inr, refl, Bool, true, false, Option, none, some,
  List, [], ◌∷◌, arith, ltb, leb, ltb→lt, if◌then◌else◌, Bool-cases, any, ◌&&◌, ◌==◌,
}
use mcp_kubernetes_platform.Prelude.Effects.{Result, ok, raised, continue}
use mcp_kubernetes_platform.Ladder.Types.{
  second, healed, still_sick, LadderError, Timestamp, Event, Call, read_pod, list_events, monotonic,
  sleep, History, Outside, World, Action, watch_timeout_seconds,
}
use mcp_kubernetes_platform.Ladder.Methods.{set_state, ask_pod, ask_events}
use mcp_kubernetes_platform.Ladder.Watch.{
  new_warnings, read_clock, pause, poll, judge, watch_loop, watchdog_from, watchdog, watch,
}
use mcp_kubernetes_platform.Ladder.Transitions.{is_ok, Settles, watch-Settles}

abbrev pub is_aware : Option Timestamp → Bool
is_aware none = false
is_aware (some t) = t.aware

-- some warning among the events has a time with an offset from UTC
abbrev pub has_aware_warning : List Event → Bool
has_aware_warning es = any (λ e. e.type == "Warning" && is_aware e.last_timestamp) es

-- The outside answers every call, no listing holds a warning whose time has an offset, as it is while
-- the resource has no warnings, and the monotonic clock does not go back and is ahead by the pause after a
-- sleep.
pub record IsCooperative (env : Outside) : Type 0 where
  pub pods : (h : History) → is_ok (env.pod h) ≡ true
  pub listed : (h : History) → is_ok (env.events h) ≡ true
  pub comparable :
      (h : History) (es : List Event) → env.events h ≡ ok es → has_aware_warning es ≡ false
  pub patches : (h : History) → is_ok (env.patched h) ≡ true
  pub onward : (h : History) (c : Call) → env.clock h ≤ env.clock (c ∷ h)
  pub rested : (h : History) (n : ℕ) → env.clock h + n ≤ env.clock (sleep n ∷ h)

new_warnings-ok :
    (ts : ℕ) (es : List Event) → has_aware_warning es ≡ false → is_ok (new_warnings ts es) ≡ true
unfolding new_warnings
new_warnings-ok ts [] h = refl
new_warnings-ok ts (e ∷ es) h = ground (arith, h, new_warnings-ok ts es (ground (arith, h)))

pub ok-value : {E A : Type 0} (r : Result E A) → is_ok r ≡ true → (a : A) × (r ≡ ok a)
ok-value (ok a) h = (a, refl)
ok-value (raised e) h = cc

-- A return, with the session healed or still sick.
abbrev pub HasVerdict : Result LadderError Unit × World → Type 0
HasVerdict (r, w) = (is_ok r ≡ true) × ((w.session.state ≡ healed) ⊎ (w.session.state ≡ still_sick))

settled : (r : Result LadderError Unit × World) → is_ok r.0 ≡ true → Settles r → HasVerdict r
settled (ok _, w) e h = (refl, h)
settled (raised x, w) e h = cc

module _ {env : Outside} (c : IsCooperative env) where
  poll-ok : (ts : ℕ) (w : World) → is_ok (poll env ts w).0 ≡ true
  unfolding poll ask_pod ask_events
  poll-ok ts w =
      let h : History = read_pod w.session.resource.namespace w.session.resource.name ∷ w.calls in
      let (es, listed) = ok-value (env.events h) (c.listed h) in
      ground (arith, c.pods w.calls, listed, new_warnings-ok ts es (c.comparable h es listed))

  poll-clock : (ts : ℕ) (w : World) → env.clock w.calls ≤ env.clock (poll env ts w).1.calls
  unfolding poll ask_pod ask_events
  poll-clock ts w =
      let p : Call = read_pod w.session.resource.namespace w.session.resource.name in
      let l : Call = list_events w.session.resource.namespace w.session.resource.name in
      ground (arith, c.onward w.calls p, c.onward (p ∷ w.calls) l)

  judged-ok :
      (i n start : ℕ) (again : ℕ → Action Unit) (r : Result LadderError Bool) (w : World)
      → is_ok r ≡ true
      → start ≤ env.clock w.calls
      → ((m : ℕ) (v : World) → start + i * second ≤ env.clock v.calls → is_ok (again m v).0 ≡ true)
      → is_ok (continue r (judge env i again n) w).0 ≡ true
  unfolding judge set_state pause
  judged-ok i n start again (ok b) w fine le ih =
      let m : ℕ = if b then suc n else 0 in
      elim (Bool-cases (leb 2 m)) [
        | inl two ↦ rw two refl
        | inr fewer ↦ rw fewer (ih m _ (omega (arith, c.rested w.calls (i * second))))
      ]
  judged-ok i n start again (raised e) w fine le ih = fine

  -- The loop returns if its rounds, but the last, sleep past the deadline.
  watch_loop-ok :
      (f ts i deadline n : ℕ) (w : World)
      → deadline ≤ env.clock w.calls + f * (i * second)
      → is_ok (watch_loop env (suc f) ts i deadline n w).0 ≡ true
  unfolding watch_loop read_clock set_state
  watch_loop-ok zero ts i deadline n w le = elim (Bool-cases (ltb (env.clock w.calls) deadline)) [
    | inl early ↦ absurd (omega (arith, ltb→lt _ _ early))
    | inr late ↦ rw late refl
  ]
  watch_loop-ok (suc f) ts i deadline n w le =
      let w' : World = record w { calls = monotonic ∷ w.calls } in
      elim (Bool-cases (ltb (env.clock w.calls) deadline)) [
        | inl early ↦ rw early (
            judged-ok i n (env.clock w.calls) (watch_loop env (suc f) ts i deadline)
              (poll env ts w').0 (poll env ts w').1 (poll-ok ts w')
              (omega (arith, poll-clock ts w', c.onward w.calls monotonic))
              (λ m v hv. watch_loop-ok f ts i deadline m v (omega arith)))
        | inr late ↦ rw late refl
      ]

  watchdog_from-ok :
      (f ts : ℕ) (w : World) → 10 ≤ f → is_ok (watchdog_from env (suc f) 30 (some ts) w).0 ≡ true
  unfolding watchdog_from read_clock
  watchdog_from-ok f ts w le =
      watch_loop-ok f ts 30 (env.clock w.calls + watch_timeout_seconds * second) 0
        (record w { calls = monotonic ∷ w.calls }) (omega (arith, c.onward w.calls monotonic))

  watch-ok :
      (f ts : ℕ) (w : World)
      → 10 ≤ f
      → w.session.restart_ts ≡ some ts
      → is_ok (watch env (suc f) w).0 ≡ true
  unfolding watch watchdog set_state
  watch-ok f ts w le e = simp e (watchdog_from-ok f ts _ le)

  -- Eleven rounds are enough for the default watch, 300 seconds in steps of 30: if the session has
  -- the time of its restart, the pod and its events can be read at every round, no listing holds
  -- a warning whose time has an offset from UTC, and the clock goes on, the watch returns, with a
  -- verdict.
  pub watch-verdict :
      (f ts : ℕ) (w : World)
      → 10 ≤ f
      → w.session.restart_ts ≡ some ts
      → HasVerdict (watch env (suc f) w)
  watch-verdict f ts w le e = settled _ (watch-ok f ts w le e) (watch-Settles env (suc f) w)
