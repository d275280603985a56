-- ===== src/Lib.antt =====
-- The ASTER runtime: an interpreter that runs one event of an agent as a machine of explicit state,
-- which suspends at each effect, holds every effect to a budget and every write to a permit.
--
-- The parts, in crates/aster-runtime/src unless another path is given, and the files here:
--
--   machine.rs  The machine. Machine/State: the snapshot, the machine and the methods on its frames,
--     as a monad of state and errors; a call that fails keeps the changes that it made before.
--     Machine/Start: `Machine::start` and its checks. Machine/Run: `step`, `supply` and
--     `reserve_pending_usage`. Machine/Local and Machine/Governed: one function for each
--     instruction. Machine/Queries: what the instructions read (arguments, validators, policies,
--     capabilities). Machine/Snapshot: saving and restoring. Machine/Eval: expressions, calls and
--     pure routines. Machine/Decode: JSON to values and back. Machine/Errors: `MachineError`. Instant: the calendar of `add_seconds`.
--   budget.rs      Budget: the ledger of remaining and reserved resources.
--   authority.rs   Authority: sealed proposals, permits, and the ledger that issues and consumes
--     them.
--   trace.rs       Trace: the hash-chained trace.
--   capability.rs  Capability: exact grants.
--   fixture.rs     Fixture: the driver that answers requests from fixtures.
--   run.rs         Session: `RecordSession`, which drives the machine and writes the trace, with
--     Session/Opening for its start and for taking a saved effect up, Session/Recording for
--     `record_run` over a driver and Session/Replay for `replay_run`.
--   canonical.rs   Json: JSON values, their canonical order, and their hash.
--   value.rs       Value: the values of the runtime, secrets, and the check of proposals in them.
--   crates/aster-ir/src/domain.rs  Ir: the lowered program that the machine runs.
--   crates/aster-syntax/src/lexer.rs, token.rs and source.rs  Syntax: the lexer of the source
--     language. Syntax/Loops has its loops over characters, Syntax/Lexer its methods and `run`,
--     Syntax/Token and Syntax/Source its data.
--   crates/aster-diagnostics/src  Diagnostic: codes and diagnostics, with Diagnostic/Explain for
--     `explain` and Diagnostic/Render for the text of a diagnostic; the spans of span.rs are in Ir
--     and Syntax/Source.
--
-- How they meet: an instruction of the machine reserves in the budget before it yields a request,
-- and `supply` settles it; `authorize` issues a permit of the authority ledger, and `commit`
-- consumes it. The host drives the machine by `step`, `reserve_pending_usage` and `supply`.
-- Machine/Rules has the rules for blocks of the monad. Machine/Follows shows what every instruction
-- leaves alone, Machine/Commits what a request for a write and a completed event presuppose,
-- Machine/Answers and Machine/Usage what `supply` and `reserve_pending_usage` take, Machine/Waits
-- what a request leaves pending, and Machine/Lifetime what follows for whole runs. Budget,
-- Authority, Trace, Fixture, Capability and Session have their own theorems in the modules below
-- them. Checks holds the tests, with concrete instances of the parameters.
--
-- Conventions. A `u64` or a `u32` is a natural number, and the checks and saturations of the code
-- are written out against its largest value; an `i64` is an integer with checked operations. A
-- `BTreeMap` is an association list in the order of its keys. A vector of frames stands with its top
-- first. An error keeps its variant; where the code formats an error into a text, so does the model
-- for the texts that the code fixes. A type that the code serialises comes in through a function
-- that gives its JSON, since `serde`'s derived code is not in the repository; so do the text of a
-- JSON value, SHA-256, the reading and printing of JSON integers (`Codec` and `Externals`), and the
-- reading of a string literal by `serde_json` in the lexer (`read_literal`). The lexer walks the
-- bytes of its source and stands at the start of a character at every look, so the model walks the
-- characters and counts their bytes. No theorem supposes anything of these but two: that the head
-- hash binds a trace supposes that the entries compared do not collide, and the restoring of a session
-- that the recorded maxima read back.
--
-- Fuel. `eval_expression`, `eval_routine` and `decode_json` recur on the stack of the process, and a
-- pure routine may loop for ever. Here the recursion goes to a given `depth`, which bounds the steps
-- of a pure routine too; beyond it the answer is `stack_overflow`, which the code does not have. The
-- theorems hold at every depth. The loop of `progress` runs until the machine suspends, those of
-- `record_run` and `replay_run` until the event completes; here they have a bound, beyond which the
-- answer is `out_of_steps`. Session/Replay/Complete shows that every recorded run has a bound that is
-- enough for its replay. The loop of the lexer has a round for each byte of its source, and
-- Syntax/Lexer/Lossless shows that it ends within them. The other loops are structural.
--
-- Not modelled: the host (host.rs), the JSON Lines of a trace and the program's own hash; the parser,
-- its tree and the formatter of crates/aster-syntax, crates/aster-semantics, the lowering of
-- crates/aster-ir, and the command line, none of which run in the machine. A comment may nest deeper
-- than the `u32` of the lexer counts, which takes a source of eight gigabytes.
pub mod Base
pub mod Json
pub mod Budget
pub mod Authority
pub mod Trace
pub mod Ir
pub mod Value
pub mod Machine
pub mod Instant
pub mod Capability
pub mod Fixture
pub mod Session
pub mod Checks
pub mod Diagnostic
pub mod Syntax
