-- ===== src/Campaign.antt =====
-- internal/campaign: the log and the live state that is its fold.
pub mod Fold
pub mod Append
pub mod Replay
pub mod Reading
pub mod Growth
pub mod Agree
