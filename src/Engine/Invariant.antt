-- ===== src/Engine/Invariant.antt =====
-- What every state that the fold builds satisfies, one part to a file.
pub mod Keys
pub mod Tokens
pub mod Conditions
pub mod Scenes
pub mod Sessions
pub mod Actors
