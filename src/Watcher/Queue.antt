-- ===== src/Watcher/Queue.antt =====
-- The events, the table `work_queue` as a list of rows, and the classification. Times are whole
-- microseconds; their ISO texts, which SQLite compares, are in the same order.
use mcp_kubernetes_platform.Prelude.{
  ℕ, suc, ◌+◌, ◌*◌, Bool, true, false, ◌&&◌, String, Option, none, some, List, [], ◌∷◌, ◌++◌, ◌==◌,
  any, ltb, count_if, get_or, if◌then◌else◌,
}

abbrev pub second : ℕ
second = 1000000

pub record ObjectMeta : Type 0 where
  pub namespace : Option String
  pub resource_version : Option String

pub record ObjectReference : Type 0 where
  pub kind : Option String
  pub name : String

pub record Event : Type 0 where
  pub type : Option String
  pub reason : Option String
  pub metadata : Option ObjectMeta
  pub involved_object : Option ObjectReference

-- ns, name and reason of an event, as `_consume_stream` and `_upsert` read them
abbrev pub EventKey : Type 0
EventKey = String × String × String

abbrev pub namespace_of : Option ObjectMeta → String
namespace_of none = ""
namespace_of (some m) = get_or m.namespace ""

-- An object that the event is about is taken to have a name; a name that is None would break the INSERT.
abbrev pub name_of : Option ObjectReference → String
name_of none = ""
name_of (some r) = r.name

abbrev pub kind_of : Option ObjectReference → String
kind_of none = ""
kind_of (some r) = get_or r.kind ""

unfoldable pub event_key : Event → EventKey
event_key ev = (namespace_of ev.metadata, name_of ev.involved_object, get_or ev.reason "")

unfoldable pub same_event : EventKey → EventKey → Bool
same_event (ns, name, reason) (ns', name', reason') =
    ns == ns' && name == name' && reason == reason'

abbrev pub reason_to_fix_class : List ((String × String) × String)
reason_to_fix_class =
    (("BackOff", "Pod"), "restart-first-ladder")
    ∷ (("OOMKilling", "Pod"), "restart-first-ladder")
    ∷ (("ImagePullBackOff", "Pod"), "image-tag-migration")
    ∷ (("ErrImagePull", "Pod"), "image-tag-migration")
    ∷ (("FailedScheduling", "Pod"), "resource-shortage")
    ∷ (("FailedMount", "Pod"), "pvc-issue")
    ∷ (("FailedAttachVolume", "Pod"), "pvc-issue")
    ∷ (("Evicted", "Pod"), "resource-shortage")
    ∷ (("NodeNotReady", "Node"), "node-issue")
    ∷ (("FailedCreate", "ReplicaSet"), "resource-shortage")
    ∷ (("Killing", "Pod"), "ignored")
    ∷ []

-- the entry of a table under a reason and a kind, or "unknown"
unfoldable pub class_in : List ((String × String) × String) → String → String → String
class_in [] reason kind = "unknown"
class_in (((r, k), c) ∷ rest) reason kind =
    let later = class_in rest reason kind in if r == reason && k == kind then c else later

unfoldable pub classify : Event → String
classify ev = class_in reason_to_fix_class (get_or ev.reason "") (kind_of ev.involved_object)

-- the CHECK on work_queue.status
pub data RowStatus : Type 0 where
  queued claimed resolved escalated : RowStatus

pub record Row : Type 0 where
  pub id : ℕ
  pub ns : String
  pub kind : String
  pub name : String
  pub reason : String
  pub fix_class : String
  pub first_seen : ℕ
  pub last_seen : ℕ
  pub count : ℕ
  pub status : RowStatus

abbrev pub is_waiting : Row → Bool
is_waiting r = elim r.status [ queued ↦ true | _ ↦ false ]

-- `_queue_depth`
unfoldable pub queue_depth : List Row → ℕ
queue_depth rows = count_if is_waiting rows

abbrev pub dedup_window_seconds : ℕ
dedup_window_seconds = 60

-- The WHERE clause of the SELECT; `last_seen > now - 60 s`, by an addition.
unfoldable pub is_recent : EventKey → ℕ → Row → Bool
is_recent key now r =
    same_event key (r.ns, r.name, r.reason)
    && is_waiting r
    && ltb now (r.last_seen + dedup_window_seconds * second)

-- The UPDATE of the row that the SELECT fetches, taken to be the oldest.
unfoldable pub bump : EventKey → ℕ → ℕ → List Row → List Row
bump key now window_now [] = []
bump key now window_now (r ∷ rows) =
    let rest = bump key now window_now rows in
    if is_recent key window_now r
    then record r { count = suc r.count; last_seen = now } ∷ rows
    else r ∷ rest

-- the INSERT, with the defaults of the table
unfoldable pub new_row : ℕ → Event → String → ℕ → Row
new_row i ev fix_class now = record {
  id = i;
  ns = (event_key ev).0;
  kind = kind_of ev.involved_object;
  name = (event_key ev).1;
  reason = (event_key ev).2;
  fix_class = fix_class;
  first_seen = now;
  last_seen = now;
  count = 1;
  status = queued;
}

-- `_upsert`: `alloc` is SQLite's AUTOINCREMENT; the clock is read twice, for `now_iso` and for
-- the window.
unfoldable pub upsert : (List Row → ℕ) → Event → String → ℕ → ℕ → List Row → List Row
upsert alloc ev fix_class now window_now rows =
    if any (is_recent (event_key ev) window_now) rows
    then bump (event_key ev) now window_now rows
    else rows ++ new_row (alloc rows) ev fix_class now ∷ []
