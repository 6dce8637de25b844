-- ===== src/Watcher.antt =====
-- src/watchers/event_watcher.py: the watch on the event stream and its work queue.
pub mod Queue
pub mod Stream
pub mod Depth
pub mod Limits
pub mod Reconnects
