-- ===== src/Rules.antt =====
-- internal/rules: the expression language of rulesets.
pub mod Int64
pub mod Floor
pub mod Syntax
pub mod Result
pub mod Lexer
pub mod Parser
pub mod Eval
pub mod Progress
pub mod Legal
pub mod Pieces
pub mod Total
pub mod Ruleset
pub mod Wording
pub mod Attempt
pub mod Running
pub mod Outcomes
pub mod Checks
pub mod Resolve
pub mod Accepted
pub mod Stepping
pub mod Marking
pub mod Soundness
pub mod Checked
pub mod Parity
pub mod Evaluation
pub mod Rolling
pub mod References
