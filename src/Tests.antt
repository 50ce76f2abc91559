-- ===== src/Tests.antt =====
-- The theorems at concrete inputs.
mod Commands
mod Data
mod Engine
mod Gateway
mod Log
mod Rules
mod Seats
