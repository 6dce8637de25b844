-- ===== src/Watcher/Stream.antt =====
-- `_is_rate_limited`, `_consume_stream` and the reconnect loop of `EventStreamWatcher.run`.
use mcp_kubernetes_platform.Prelude.{
  ℕ, suc, ◌+◌, ◌*◌, Bool, true, false, String, Option, none, some, List, [], ◌∷◌, ◌==◌, ltb, eqb,
  text_or, if◌then◌else◌,
}
use mcp_kubernetes_platform.Watcher.Queue.{
  second, ObjectMeta, Event, EventKey, event_key, same_event, classify, Row, queue_depth, upsert,
}

abbrev pub queue_depth_limit : ℕ
queue_depth_limit = 50

-- RATE_LIMITED_REASONS.get(reason), in seconds
unfoldable pub rate_limit : String → Option ℕ
rate_limit reason = if reason == "Unhealthy" then some 120 else none

-- the dict `_rate_limit_seen`
abbrev pub Seen : Type 0
Seen = List (EventKey × ℕ)

unfoldable pub last_seen : EventKey → Seen → ℕ
last_seen key [] = 0
last_seen key ((k, t) ∷ seen) =
    let rest = last_seen key seen in if same_event k key then t else rest

-- `now - last < limit`, by an addition: the monotonic clock does not go back
unfoldable pub too_soon : ℕ → ℕ → EventKey → Seen → Bool
too_soon limit now key seen = ltb now (last_seen key seen + limit * second)

-- `_is_rate_limited`, with the dict that it leaves; the entry set hides an older one.
unfoldable pub is_rate_limited : EventKey → Option ℕ → ℕ → Seen → Bool × Seen
is_rate_limited key none now seen = (false, seen)
is_rate_limited key (some limit) now seen =
    if too_soon limit now key seen then (true, seen) else (false, (key, now) ∷ seen)

-- What the watcher keeps: its fields, the table, and the Prometheus counter.
pub record Watcher : Type 0 where
  pub last_rv : String
  pub rate_limit_seen : Seen
  pub rows : List Row
  pub backpressure : ℕ

-- A raw event of the stream, with what the clocks and the stop event say when it is handled.
pub record Arrival : Type 0 where
  pub object : Option Event
  pub stopped : Bool
  pub monotonic : ℕ
  pub now : ℕ
  pub window_now : ℕ

-- the update of `_last_rv`
unfoldable pub version_of : Option ObjectMeta → String → String
version_of none old = old
version_of (some m) old = text_or m.resource_version old

module _ (alloc : List Row → ℕ) where
  -- the end of the loop's body: the queue takes the event, or the counter does
  unfoldable pub enqueue : Arrival → Event → Watcher → Watcher
  enqueue a ev w =
      if ltb (queue_depth w.rows) queue_depth_limit
      then record w { rows = upsert alloc ev (classify ev) a.now a.window_now w.rows }
      else record w { backpressure = suc w.backpressure }

  -- from `_is_rate_limited` on
  unfoldable pub admit : Arrival → Event → Watcher → Watcher
  admit a ev w =
      let key = event_key ev in
      let (limited, seen) = is_rate_limited key (rate_limit key.2) a.monotonic w.rate_limit_seen in
      let noted : Watcher = record w { rate_limit_seen = seen } in
      if limited then noted else if classify ev == "ignored" then noted else enqueue a ev noted

  abbrev pub is_warning : Event → Bool
  is_warning ev = elim ev.type [ none ↦ false | some t ↦ t == "Warning" ]

  -- the loop's body, after the stop event
  unfoldable pub handle : Arrival → Option Event → Watcher → Watcher
  handle a none w = w
  handle a (some ev) w =
      let noted : Watcher = record w { last_rv = version_of ev.metadata w.last_rv } in
      if is_warning ev then admit a ev noted else noted

  -- `_consume_stream`: the stream ends, or the stop event ends it.
  unfoldable pub consume_stream : List Arrival → Watcher → Watcher
  consume_stream [] w = w
  consume_stream (a ∷ rest) w = if a.stopped then w else consume_stream rest (handle a a.object w)

-- how a connection ended
pub data Ending : Type 0 where
  closed other_error : Ending
  api_error : ℕ → Ending

-- The variables of `run`, and the delays slept so far, the last first.
pub record Reconnect : Type 0 where
  pub last_rv : String
  pub attempt : ℕ
  pub delays : List ℕ

abbrev pub delays_of_backoff : List ℕ
delays_of_backoff = 1 ∷ 2 ∷ 4 ∷ 8 ∷ 16 ∷ 30 ∷ []

-- backoff[min(n, len(backoff) - 1)]
unfoldable pub delay_at : List ℕ → ℕ → ℕ
delay_at [] n = 0
delay_at (d ∷ []) n = d
delay_at (d ∷ e ∷ ds) ℕ.zero = d
delay_at (d ∷ e ∷ ds) (ℕ.suc n) = delay_at (e ∷ ds) n

abbrev pub slept : Reconnect → Reconnect
slept r = record r {
  attempt = suc r.attempt;
  delays = delay_at delays_of_backoff r.attempt ∷ r.delays;
}

-- a round of the loop of `run`, by how its connection ended
unfoldable pub reconnect : Ending → Reconnect → Reconnect
reconnect closed r = record r { attempt = 0 }
reconnect other_error r = slept r
reconnect (api_error status) r = slept (if eqb status 410 then record r { last_rv = "" } else r)

unfoldable pub reconnects : List Ending → Reconnect → Reconnect
reconnects [] r = r
reconnects (e ∷ es) r = reconnects es (reconnect e r)
