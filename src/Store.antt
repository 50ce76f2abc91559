-- ===== src/Store.antt =====
-- internal/store: the append-only log and its subscribers.
pub mod Log
pub mod Heads
pub mod Subscriber
pub mod Feeds
