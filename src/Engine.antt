-- ===== src/Engine.antt =====
-- internal/engine: the derived state of a campaign and the one fold that advances it.
pub mod State
pub mod Terrain
pub mod Apply
mod Standing
pub mod Merge
pub mod Control
pub mod Invariant
pub mod WellFormed
pub mod Refusal
pub mod Copies
pub mod Doors
pub mod Effects
pub mod Narration
pub mod Removal
pub mod Seen
