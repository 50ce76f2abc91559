-- ===== src/Lib.antt =====
-- The core of the platform: a virtual tabletop whose whole truth is one append-only log of events.
-- A gateway authorizes a participant's command against the derived state, the command becomes
-- events, and the campaign validates them on a snapshot, has the store write them, applies them to
-- its live state and notifies the subscribers.
--
-- Contract: contract/vtt/v1/events.proto and commands.proto. Event holds the events with the fields
-- that the modelled code reads, Command the client's commands.
--
-- Go: what the code uses of Go itself. GoMap is `map[string]V` as an association list, whose order
-- stands for the order of a `for range`; Format is `%d` and the text of a grid square; Sort is
-- sort.Strings and sort.Slice; Text is the order of strings.
--
-- Engine: internal/engine. State is state.go, with a nil map told apart from an empty one where the
-- code does so; Terrain is terrain.go and actorkind.go; Engine/Apply holds Apply of apply.go, one
-- function for each arm of its switch, over a state that is passed on: Sessions, Scenes, Actors,
-- Control, Tokens, Doors, Pools, Feed and Sight by what they change, Dispatch for the switch. An
-- outcome is the error, if any, and the state that the call leaves. Invariant and WellFormed hold
-- the invariant of the state; Refusal, Copies, Merge, Control, Standing, Doors, Effects, Removal,
-- Narration and Seen the theorems on single arms.
--
-- Store: internal/store. Log is AppendBatch of store.go for the world log, over a record of the
-- database's operations with the one law that a committed transaction leaves its rows behind those
-- that were there. Subscriber is the queue and the pump of subscribe.go: the pump and those who
-- stop it are a step relation, and a run interleaves steps with the events that are offered. Heads
-- and Feeds are the theorems on the two.
--
-- Campaign: internal/campaign. Fold is foldEvents, Append the append of a batch with its
-- validation, Reading, Replay, Growth and Agree the theorems. A fresh session id is a parameter
-- that may fail; so is the failure of the fan-out to the character logs.
--
-- Identity and Gateway: the roles of internal/identity/identity.go; Viewpoint is
-- internal/gateway/viewpoint.go, Roles and Rules are internal/gateway/authz.go, Denial its
-- refusals. Presence is the registry of internal/gateway/presence.go, with its sends left out.
-- Convert is internal/gateway/convert.go and the validators of commands, Handle the command path of
-- internal/gateway/server.go from a command to the batch that it hands to the campaign, and Answer
-- the whole of handleCommand, with the campaign's append; what a connection's eyes see is a
-- parameter there, as are fresh event ids and the dice. Seat is internal/gateway/seat.go, where a
-- run of its loop is given what each pass finds. Access, Commands, ByCommand, Ownership, Revoking,
-- Watching, Adjacent, Counting, Answering, Handling, Issuing, Moving, Voicing, PlayerAnswers,
-- ActorTokens, Removing and Seating hold the theorems.
--
-- Rules: internal/rules. Syntax holds the trees of expr.go and the walks over them, Lexer and
-- Parser its lexer and its recursive-descent parser, Eval its two evaluators over a roller whose
-- state is passed on, Int64 the arithmetic of int; Progress, Legal, Pieces, Total, Floor,
-- Evaluation, Rolling and References hold their theorems. Ruleset is the compiled part of
-- format.go; Running, Outcomes, Checks and Resolve are resolve.go, with Wording for its texts and
-- Attempt for its errors; Accepted, Stepping, Marking, Soundness, Checked and Parity lead to the
-- theorem that the engine accepts what Resolve returns. The parser is given four units of fuel for
-- each character and four more: every call that does not read a token is followed by one that does
-- within four calls. The roller (crypto/rand) is a parameter.
--
-- Sums and differences of int32 wrap around; int64 sums (sequences, the clamp of a resource) are
-- those of the integers, since no sequence reaches 2^63 and the clamp adds two int32s. Lengths of
-- strings are byte lengths. Besides the parser only the printing of a number needs fuel, and is
-- given one more than the number. Locks are left out: each modelled operation runs under one.
--
-- Not modelled: the character logs and what a character perceives of the world, the loading and
-- compilation of rulesets, maps and adventures, the opening of connections, the handlers of
-- commands that load files or change who sits at the table, the identity database, and the HTTP,
-- WebSocket and tool servers around the core.
pub mod Prelude
pub mod Go
pub mod Contract
pub mod Engine
pub mod Store
pub mod Campaign
pub mod Identity
pub mod Gateway
pub mod Rules
pub mod Tests
