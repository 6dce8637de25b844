-- ===== src/Tests/Watcher.antt =====
-- The event watcher on concrete events.
use mcp_kubernetes_platform.Prelude.{
  ℕ, ◌+◌, ◌≤◌, ◌≡◌, refl, false, String, some, List, [], ◌∷◌, arith, length,
}
use mcp_kubernetes_platform.Watcher.Queue.{
  Event, event_key, same_event, classify, class_in, Row, queue_depth, is_recent, bump, new_row,
  upsert,
}
use mcp_kubernetes_platform.Watcher.Stream.{
  rate_limit, last_seen, too_soon, is_rate_limited, Watcher, Arrival, version_of, enqueue, admit,
  handle, consume_stream, Reconnect,
}
use mcp_kubernetes_platform.Watcher.Depth.{consume_stream-Fits, counted}
use mcp_kubernetes_platform.Watcher.Limits.{consume_stream-held}

abbrev event : String → Event
event reason = record {
  type = some "Warning";
  reason = some reason;
  metadata = some (record { namespace = some "shop"; resource_version = some "41" });
  involved_object = some (record { kind = some "Pod"; name = "web-0" });
}

abbrev arrival : String → ℕ → Arrival
arrival reason at = record {
  object = some (event reason);
  stopped = false;
  monotonic = at;
  now = at;
  window_now = at;
}

abbrev start : Watcher
start = record { last_rv = ""; rate_limit_seen = []; rows = []; backpressure = 0 }

abbrev next_id : List Row → ℕ
next_id rows = 1 + length rows

abbrev burst : List Arrival
burst = arrival "BackOff" 1000 ∷ arrival "Unhealthy" 200000000 ∷ arrival "BackOff" 2000 ∷ []

-- the second BackOff is counted in the row of the first
counts_again : counted (consume_stream next_id burst start).rows ≡ 3
unfolding consume_stream handle admit enqueue is_rate_limited rate_limit too_soon last_seen
    same_event event_key classify class_in upsert bump is_recent new_row queue_depth version_of
counts_again = refl

consume_stream-Fits_example : queue_depth (consume_stream next_id burst start).rows ≤ 50
unfolding queue_depth
consume_stream-Fits_example = consume_stream-Fits next_id burst start (omega arith)

-- what comes between the first probe failure and the last
abbrev between : List Arrival
between = arrival "Unhealthy" 250000000 ∷ arrival "BackOff" 260000000 ∷ []

abbrev probed : Watcher
probed =
    consume_stream next_id between
      (handle next_id (arrival "Unhealthy" 200000000) (some (event "Unhealthy")) start)

consume_stream-held_example :
    ((is_rate_limited ("shop", "web-0", "Unhealthy") (rate_limit "Unhealthy") 200000000 []).0
      ≡ false)
    × (admit next_id (arrival "Unhealthy" 300000000) (event "Unhealthy") probed ≡ probed)
unfolding rate_limit last_seen same_event event_key
consume_stream-held_example =
    consume_stream-held ("shop", "web-0", "Unhealthy") 200000000 120 next_id refl
      (arrival "Unhealthy" 200000000) (event "Unhealthy") start between
      (arrival "Unhealthy" 300000000) (event "Unhealthy") refl refl refl (omega arith)
      (λ e. omega arith, (λ e. cc, tt)) refl (omega arith)

abbrev fresh : Reconnect
fresh = record { last_rv = "41"; attempt = 0; delays = [] }
