-- ===== src/Engine/Apply.antt =====
-- internal/engine/apply.go: Apply, the one function that advances the state. Each arm of its switch
-- is a function here. An arm returns its refusal, if any, and the state as it stands at that return,
-- so a write that the code makes before a refusal would show.
pub mod Outcome
pub mod Sessions
pub mod Scenes
pub mod Actors
pub mod Control
pub mod Tokens
pub mod Doors
pub mod Pools
pub mod Feed
pub mod Sight
pub mod Dispatch
