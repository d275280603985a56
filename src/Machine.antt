-- ===== src/Machine.antt =====
-- crates/aster-runtime/src/machine.rs
pub mod Errors
pub mod Decode
pub mod Eval
pub mod State
pub mod Rules
pub mod Queries
pub mod Follows
pub mod Local
pub mod Governed
pub mod Run
pub mod Commits
pub mod Lifetime
pub mod Usage
pub mod Snapshot
pub mod Answers
pub mod Waits
pub mod Start
