-- ===== src/Watcher/Depth.antt =====
-- How deep the work queue gets, and what becomes of each event.
use mcp_kubernetes_platform.Prelude.{
  ℕ, suc, ◌+◌, ◌≤◌, ◌≡◌, refl, ◌∙◌, Bool, true, String, Option, none, some, List, [], ◌∷◌, ◌++◌,
  ◌==◌, any, ◌&&◌, not, arith, inl, inr, Bool-cases, count_if, if◌then◌else◌,
}
use mcp_kubernetes_platform.Watcher.Queue.{
  Event, EventKey, event_key, classify, Row, is_waiting, queue_depth, is_recent, bump, new_row,
  upsert,
}
use mcp_kubernetes_platform.Watcher.Stream.{
  queue_depth_limit, rate_limit, Seen, is_rate_limited, Watcher, Arrival, version_of, enqueue,
  admit, is_warning, handle, consume_stream,
}

bump-depth :
    (key : EventKey) (now window_now : ℕ) (rows : List Row)
    → queue_depth (bump key now window_now rows) ≡ queue_depth rows
unfolding bump queue_depth
bump-depth key now window_now [] = refl
bump-depth key now window_now (r ∷ rows) = ground (arith, bump-depth key now window_now rows)

count_if-append :
    (p : Row → Bool) (xs ys : List Row) → count_if p (xs ++ ys) ≡ count_if p xs + count_if p ys
count_if-append p [] ys = omega arith
count_if-append p (x ∷ xs) ys = ground (arith, count_if-append p xs ys)

module _ (alloc : List Row → ℕ) where
  upsert-depth :
      (ev : Event) (c : String) (now window_now : ℕ) (rows : List Row)
      → queue_depth (upsert alloc ev c now window_now rows) ≤ suc (queue_depth rows)
  unfolding upsert queue_depth new_row
  upsert-depth ev c now window_now rows = ground (
    arith,
    bump-depth (event_key ev) now window_now rows,
    count_if-append is_waiting rows (new_row (alloc rows) ev c now ∷ []),
  )

  -- at most the limit are waiting
  abbrev Fits : Watcher → Type 0
  Fits w = queue_depth w.rows ≤ queue_depth_limit

  enqueue-Fits : (a : Arrival) (ev : Event) (w : Watcher) → Fits w → Fits (enqueue alloc a ev w)
  unfolding enqueue
  enqueue-Fits a ev w h = ground (arith, h, upsert-depth ev (classify ev) a.now a.window_now w.rows)

  admit-Fits : (a : Arrival) (ev : Event) (w : Watcher) → Fits w → Fits (admit alloc a ev w)
  unfolding admit
  admit-Fits a ev w h =
      let key = event_key ev in
      let seen = (is_rate_limited key (rate_limit key.2) a.monotonic w.rate_limit_seen).1 in
      ground (arith, h, enqueue-Fits a ev (record w { rate_limit_seen = seen }) h)

  handle-Fits : (a : Arrival) (o : Option Event) (w : Watcher) → Fits w → Fits (handle alloc a o w)
  unfolding handle
  handle-Fits a none w h = h
  handle-Fits a (some ev) w h = elim (Bool-cases (is_warning alloc ev)) [
    | inl e ↦ rw e (admit-Fits a ev (record w { last_rv = version_of ev.metadata w.last_rv }) h)
    | inr e ↦ rw e h
  ]

  -- However many events come, no more than fifty rows are waiting.
  pub consume_stream-Fits :
      (arrivals : List Arrival) (w : Watcher)
      → queue_depth w.rows ≤ 50
      → queue_depth (consume_stream alloc arrivals w).rows ≤ 50
  unfolding consume_stream
  consume_stream-Fits [] w h = h
  consume_stream-Fits (a ∷ rest) w h = elim (Bool-cases a.stopped) [
    | inl e ↦ simp e h
    | inr e ↦
        simp e (consume_stream-Fits rest (handle alloc a a.object w) (handle-Fits a a.object w h))
  ]

-- the events that the rows and the counter stand for
abbrev pub counted : List Row → ℕ
counted [] = 0
counted (r ∷ rows) = r.count + counted rows

counted-append : (xs ys : List Row) → counted (xs ++ ys) ≡ counted xs + counted ys
counted-append [] ys = omega arith
counted-append (x ∷ xs) ys = omega (arith, counted-append xs ys)

counted-bump :
    (key : EventKey) (now window_now : ℕ) (rows : List Row)
    → any (is_recent key window_now) rows ≡ true
    → counted (bump key now window_now rows) ≡ suc (counted rows)
unfolding bump
counted-bump key now window_now [] h = cc
counted-bump key now window_now (r ∷ rows) h = elim (Bool-cases (is_recent key window_now r)) [
  | inl hit ↦ rw hit (omega arith)
  | inr miss ↦
      simp (miss, counted-bump key now window_now rows (ground (arith, h, miss))) (omega arith)
]

-- The warning passes: it is not rate-limited, and its class is not "ignored".
abbrev pub passes : Arrival → Event → Seen → Bool
passes a ev seen =
    not (is_rate_limited (event_key ev) (rate_limit (event_key ev).2) a.monotonic seen).0
    && not (classify ev == "ignored")

module _ (alloc : List Row → ℕ) where
  counted-upsert :
      (ev : Event) (c : String) (now window_now : ℕ) (rows : List Row)
      → counted (upsert alloc ev c now window_now rows) ≡ suc (counted rows)
  unfolding upsert new_row
  counted-upsert ev c now window_now rows =
      elim (Bool-cases (any (is_recent (event_key ev) window_now) rows)) [
        | inl known ↦ rw known (counted-bump (event_key ev) now window_now rows known)
        | inr unknown ↦
            rw unknown (counted-append rows (new_row (alloc rows) ev c now ∷ []) ∙ omega arith)
      ]

  counted-enqueue :
      (a : Arrival) (ev : Event) (w : Watcher)
      → counted (enqueue alloc a ev w).rows + (enqueue alloc a ev w).backpressure
        ≡ suc (counted w.rows + w.backpressure)
  unfolding enqueue
  counted-enqueue a ev w = ground (arith, counted-upsert ev (classify ev) a.now a.window_now w.rows)

  -- No event is lost or counted twice: one that is a warning and passes adds one to the counts of
  -- the rows or to the back-pressure counter, and any other changes neither.
  pub handle-counted :
      (a : Arrival) (ev : Event) (w : Watcher)
      → counted (handle alloc a (some ev) w).rows + (handle alloc a (some ev) w).backpressure
        ≡ counted w.rows
          + w.backpressure
          + (if is_warning alloc ev && passes a ev w.rate_limit_seen then 1 else 0)
  unfolding handle admit
  handle-counted a ev w =
      let key = event_key ev in
      let seen = (is_rate_limited key (rate_limit key.2) a.monotonic w.rate_limit_seen).1 in
      ground (
        arith,
        counted-enqueue a ev
            (record w { last_rv = version_of ev.metadata w.last_rv; rate_limit_seen = seen }),
      )
