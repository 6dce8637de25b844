-- ===== src/Watcher/Limits.antt =====
-- Events that the rate limit holds back.
use mcp_kubernetes_platform.Prelude.{
  ℕ, ◌+◌, ◌*◌, ◌<◌, ◌≤◌, ltb, ◌≡◌, refl, ap, ◌∙◌, true, false, Option, none, some, List, [], ◌∷◌,
  arith, lt→ltb, inl, inr, Bool-cases, All, eq_iff,
}
use mcp_kubernetes_platform.Watcher.Queue.{second, Event, EventKey, event_key, same_event, Row}
use mcp_kubernetes_platform.Watcher.Stream.{
  rate_limit, Seen, last_seen, too_soon, is_rate_limited, Watcher, Arrival, version_of, enqueue,
  admit, is_warning, handle, consume_stream,
}

same_event-eq : (k j : EventKey) → same_event k j ≡ true → k ≡ j
unfolding same_event
same_event-eq (a, b, c) (a', b', c') h =
    let p : a ≡ a' = ground (arith, h, eq_iff a a') in
    let q : b ≡ b' = ground (arith, h, eq_iff b b') in
    let r : c ≡ c' = ground (arith, h, eq_iff c c') in rw (p, q, r) refl

same_event_refl : (k : EventKey) → same_event k k ≡ true
unfolding same_event
same_event_refl (a, b, c) = ground (arith, eq_iff a a, eq_iff b b, eq_iff c c)

module _ (key : EventKey) (t limit : ℕ) where
  -- An event with this key comes before the limit has run out.
  abbrev pub IsEarly : ℕ → Option Event → Type 0
  IsEarly monotonic none = Unit
  IsEarly monotonic (some ev) =
      same_event (event_key ev) key ≡ true → monotonic < t + limit * second

  module _ (alloc : List Row → ℕ) (limited : rate_limit key.2 ≡ some limit) where
    enqueue-seen :
        (a : Arrival) (ev : Event) (w : Watcher)
        → (enqueue alloc a ev w).rate_limit_seen ≡ w.rate_limit_seen
    unfolding enqueue
    enqueue-seen a ev w = ground arith

    -- an early event with the key is held back
    held :
        (a : Arrival) (ev : Event) (w : Watcher)
        → event_key ev ≡ key
        → last_seen key w.rate_limit_seen ≡ t
        → a.monotonic < t + limit * second
        → admit alloc a ev w ≡ w
    unfolding admit is_rate_limited too_soon
    held a ev w same last early =
        rw same (rw limited (rw last (rw (lt→ltb a.monotonic (t + limit * second) early) refl)))

    admit-seen :
        (a : Arrival) (ev : Event) (w : Watcher)
        → (admit alloc a ev w).rate_limit_seen
          ≡ (is_rate_limited
              (event_key ev)
              (rate_limit (event_key ev).2)
              a.monotonic
              w.rate_limit_seen).1
    unfolding admit
    admit-seen a ev w =
        let key = event_key ev in
        let seen = (is_rate_limited key (rate_limit key.2) a.monotonic w.rate_limit_seen).1 in
        ground (arith, enqueue-seen a ev (record w { rate_limit_seen = seen }))

    -- another event leaves the key's time as it is
    is_rate_limited-other :
        (j : EventKey) (o : Option ℕ) (now : ℕ) (seen : Seen)
        → same_event j key ≡ false
        → last_seen key (is_rate_limited j o now seen).1 ≡ last_seen key seen
    unfolding is_rate_limited last_seen
    is_rate_limited-other j none now seen other = refl
    is_rate_limited-other j (some l) now seen other = ground arith

    admit-last_seen :
        (a : Arrival) (ev : Event) (w : Watcher)
        → last_seen key w.rate_limit_seen ≡ t
        → (same_event (event_key ev) key ≡ true → a.monotonic < t + limit * second)
        → last_seen key (admit alloc a ev w).rate_limit_seen ≡ t
    admit-last_seen a ev w last early = elim (Bool-cases (same_event (event_key ev) key)) [
      | inl same ↦
          ap (λ v. last_seen key v.rate_limit_seen)
            (held a ev w (same_event-eq (event_key ev) key same) last (early same))
          ∙ last
      | inr other ↦
          ap (last_seen key) (admit-seen a ev w)
          ∙ is_rate_limited-other (event_key ev) (rate_limit (event_key ev).2) a.monotonic
              w.rate_limit_seen other
          ∙ last
    ]

    handle-last_seen :
        (a : Arrival) (o : Option Event) (w : Watcher)
        → last_seen key w.rate_limit_seen ≡ t
        → IsEarly a.monotonic o
        → last_seen key (handle alloc a o w).rate_limit_seen ≡ t
    unfolding handle
    handle-last_seen a none w last early = last
    handle-last_seen a (some ev) w last early = elim (Bool-cases (is_warning alloc ev)) [
      | inl warns ↦ simp warns (
          admit-last_seen a ev (record w { last_rv = version_of ev.metadata w.last_rv }) last early)
      | inr silent ↦ simp silent last
    ]

    stream-last_seen :
        (arrivals : List Arrival) (w : Watcher)
        → last_seen key w.rate_limit_seen ≡ t
        → All (λ a. IsEarly a.monotonic a.object) arrivals
        → last_seen key (consume_stream alloc arrivals w).rate_limit_seen ≡ t
    unfolding consume_stream
    stream-last_seen [] w last early = last
    stream-last_seen (a ∷ rest) w last early = elim (Bool-cases a.stopped) [
      | inl e ↦ simp e last
      | inr e ↦ simp e (
          stream-last_seen rest (handle alloc a a.object w)
            (handle-last_seen a a.object w last early.0) early.1)
    ]

    -- an event past the limit is admitted, and its time is kept
    admitted-last_seen :
        (a : Arrival) (ev : Event) (w : Watcher)
        → is_warning alloc ev ≡ true
        → event_key ev ≡ key
        → a.monotonic ≡ t
        → last_seen key w.rate_limit_seen + limit * second ≤ t
        → last_seen key (handle alloc a (some ev) w).rate_limit_seen ≡ t
    unfolding handle is_rate_limited too_soon last_seen
    admitted-last_seen a ev w warns same now past =
        let noted : Watcher = record w { last_rv = version_of ev.metadata w.last_rv } in
        let late : ltb t (last_seen key w.rate_limit_seen + limit * second) ≡ false =
          ground (arith, past) in
        simp warns (
          ap (last_seen key) (admit-seen a ev noted)
          ∙ rw (same, limited, now, late, same_event_refl key) refl)

    -- When a warning of a rate-limited kind comes after the limit of its key has run out, it is let
    -- through, and from then on, whatever else the stream brings, as long as the events with the
    -- same key come before the limit has run out again, none of them is: a further one changes
    -- nothing past the rate limit, neither the queue nor the counter of an entry.
    pub consume_stream-held :
        (first : Arrival) (ev0 : Event) (w0 : Watcher) (arrivals : List Arrival) (a : Arrival)
        (ev : Event)
        → is_warning alloc ev0 ≡ true
        → event_key ev0 ≡ key
        → first.monotonic ≡ t
        → last_seen key w0.rate_limit_seen + limit * second ≤ t
        → All (λ a. IsEarly a.monotonic a.object) arrivals
        → event_key ev ≡ key
        → a.monotonic < t + limit * second
        → let w = consume_stream alloc arrivals (handle alloc first (some ev0) w0) in
          ((is_rate_limited key (rate_limit key.2) t w0.rate_limit_seen).0 ≡ false)
          × (admit alloc a ev w ≡ w)
    unfolding is_rate_limited too_soon
    consume_stream-held first ev0 w0 arrivals a ev warns same0 now past early same soon =
        let w1 = handle alloc first (some ev0) w0 in
        let last = admitted-last_seen first ev0 w0 warns same0 now past in
        let late : ltb t (last_seen key w0.rate_limit_seen + limit * second) ≡ false =
          ground (arith, past) in
        (
          rw (limited, late) refl,
          held a ev (consume_stream alloc arrivals w1) same
              (stream-last_seen arrivals w1 last early) soon,
        )
