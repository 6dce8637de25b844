-- ===== src/Watchdog/Events.antt =====
-- The events that a watch returns.
use mcp_kubernetes_platform.Prelude.{
  ◌≡◌, ◌∙◌, refl, Bool, true, false, String, List, [], ◌∷◌, arith, length, length-append, is_in,
  inl, inr, Bool-cases, if◌then◌else◌,
}
use mcp_kubernetes_platform.Watchdog.Data.{RawEvent, World}
use mcp_kubernetes_platform.Watchdog.Loop.{note_event, note_events}

-- no text stands twice
abbrev pub no_repeat : List String → Bool
no_repeat [] = true
no_repeat (x ∷ xs) = if is_in x xs then false else no_repeat xs

-- the uids of a stream, each once, the last new one first, after those that are known
abbrev pub new_uids : List RawEvent → List String → List String
new_uids [] known = known
new_uids (e ∷ es) known = new_uids es (if is_in e.uid known then known else e.uid ∷ known)

-- One event is kept for each uid of the stream: the uids never repeat, none is missing, and there
-- are as many events as uids.
pub note_events-uids :
    (es : List RawEvent) (w : World)
    → no_repeat w.event_timestamps_seen ≡ true
    → length w.events_seen ≡ length w.event_timestamps_seen
    → ((note_events es w).event_timestamps_seen ≡ new_uids es w.event_timestamps_seen)
      × (no_repeat (note_events es w).event_timestamps_seen ≡ true)
      × (length (note_events es w).events_seen ≡ length (note_events es w).event_timestamps_seen)
unfolding note_events note_event
note_events-uids [] w h k = (refl, h, k)
note_events-uids (e ∷ es) w h k = elim (Bool-cases (is_in e.uid w.event_timestamps_seen)) [
  | inl old ↦ simp old (note_events-uids es w h k)
  | inr new ↦
      simp new (note_events-uids es _ (rw new h) (length-append w.events_seen _ ∙ omega (arith, k)))
]
