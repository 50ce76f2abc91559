-- ===== src/Gateway.antt =====
-- internal/gateway: who may issue which command, and whose eyes a connection watches through.
pub mod Denial
pub mod Viewpoint
pub mod Roles
pub mod Rules
pub mod Access
pub mod ByCommand
pub mod Watching
pub mod Ownership
pub mod Adjacent
pub mod Commands
pub mod Presence
pub mod Counting
pub mod Convert
pub mod Handle
pub mod Revoking
pub mod Answer
pub mod Answering
pub mod Handling
pub mod ActorTokens
pub mod Removing
pub mod Seat
pub mod Seating
pub mod Issuing
pub mod Moving
pub mod Voicing
pub mod PlayerAnswers
