-- ===== src/Diagnostic/Texts.antt =====
-- The texts of the explanations of crates/aster-diagnostics/src/registry.rs, by code: the arms of its
-- matches, in their order.
use aster_lang.Base.{String, List, [], ◌∷◌}

-- meaning, cause and remediation
abbrev pub ExplanationText : Type 0
ExplanationText = String × String × String

abbrev pub parse_explanations : List (String × ExplanationText)
parse_explanations =
    (
      "ASTER-PARSE-0001",
      (
        "the source does not conform to the ASTER 0.1 grammar",
        "an unexpected or malformed token was encountered",
        "correct the token at the reported source span",
      ),
    )
    ∷ (
      "ASTER-PARSE-0002",
      (
        "a string contains an invalid JSON-style escape",
        "the escape is unknown, incomplete, or has invalid Unicode digits",
        "use a valid JSON escape such as \\n, \\\\, or \\u followed by four hex digits",
      ),
    )
    ∷ (
      "ASTER-PARSE-0003",
      (
        "the lexer encountered a character with no ASTER meaning",
        "the character is not part of the ASTER 0.1 lexical grammar",
        "remove the character or replace it with a supported token",
      ),
    )
    ∷ (
      "ASTER-PARSE-0004",
      (
        "a decimal integer is outside the ASTER Int range",
        "the literal does not fit a signed 64-bit integer",
        "use a value from -9223372036854775808 through 9223372036854775807",
      ),
    )
    ∷ (
      "ASTER-PARSE-0005",
      (
        "a nested block comment is unterminated", "one or more /* delimiters have no matching */",
        "close every nested block comment",
      ),
    )
    ∷ (
      "ASTER-PARSE-0006",
      (
        "a JSON-style string literal is unterminated", "the closing quote is missing",
        "add the closing quote without crossing a source line",
      ),
    )
    ∷ (
      "ASTER-PARSE-0007",
      (
        "a triple-quoted block string is unterminated", "the closing triple quote is missing",
        "add a matching triple quote after the static instruction text",
      ),
    )
    ∷ []

abbrev pub governance_explanations : List (String × ExplanationText)
governance_explanations =
    (
      "ASTER-POLICY-4001",
      (
        "a policy is not total",
        "the policy does not have exactly one otherwise rule in final position",
        "remove any early otherwise rule and end with one otherwise decision",
      ),
    )
    ∷ (
      "ASTER-AFFINE-5001",
      (
        "a permit was used after commit consumed it", "permits are affine and single-use",
        "obtain a new permit for a new proposal",
      ),
    )
    ∷ (
      "ASTER-AFFINE-5002",
      (
        "a proposal was used after commit consumed it", "committed proposals are affine resources",
        "construct and authorize a new immutable proposal",
      ),
    )
    ∷ (
      "ASTER-CAP-6001",
      (
        "an effect lacks a declared capability requirement",
        "the enclosing flow uses or agent requires list omits the capability kind",
        "declare the exact capability requirement before using the effect",
      ),
    )
    ∷ (
      "ASTER-CAP-6002",
      (
        "a runtime capability grant is invalid or out of scope",
        "the versioned grant set does not exactly match a typed capability request",
        "issue the exact capability kind and canonical arguments required by the agent",
      ),
    )
    ∷ (
      "ASTER-PROMPT-7001",
      (
        "prompt instruction is not a static block string",
        "runtime expressions cannot be promoted to instructions",
        "place all runtime values in the structured data block",
      ),
    )
    ∷ (
      "ASTER-SECRET-8001",
      (
        "secret data would enter a model request", "Secret values are forbidden from prompt data",
        "pass a non-secret validated summary instead",
      ),
    )
    ∷ (
      "ASTER-SECRET-8002",
      (
        "persistent state contains a Secret value",
        "secret handles cannot cross snapshot or state boundaries",
        "keep the secret in a sensitivity-secret tool boundary only",
      ),
    )
    ∷ (
      "ASTER-BUDGET-11001",
      (
        "an unknown budget dimension was declared",
        "the dimension is outside the fixed ASTER 0.1 budget set",
        "use one of the six specified per-event dimensions",
      ),
    )
    ∷ (
      "ASTER-BUDGET-11002",
      (
        "a budget dimension was declared more than once",
        "duplicate limits would make reservation semantics ambiguous",
        "keep exactly one limit for the dimension",
      ),
    )
    ∷ (
      "ASTER-BUDGET-11003",
      (
        "an external effect exceeded its admitted budget",
        "no capacity remained for the fixed or declared maximum usage",
        "increase the declared per-event budget or reduce the requested usage",
      ),
    )
    ∷ (
      "ASTER-RUNTIME-9001",
      (
        "a typed runtime boundary or deterministic VM transition failed",
        "external data, a fixture, authority, or machine state violated its schema",
        "correct the boundary artifact and retry from a verified snapshot",
      ),
    )
    ∷ (
      "ASTER-REPLAY-10001",
      (
        "semantic replay diverged from recorded evidence",
        "a request, governance decision, budget transition, or outcome changed",
        "replay with the exact source, inputs, state, grants, and unmodified trace",
      ),
    )
    ∷ (
      "ASTER-REPLAY-10002",
      (
        "the trace schema, hash chain, or program identity is invalid",
        "trace bytes were malformed, reordered, tampered with, or recorded for another program",
        "restore the original complete JSON Lines trace and matching source",
      ),
    )
    ∷ (
      "ASTER-INTERNAL-9901",
      (
        "ASTER stopped at a protected implementation invariant",
        "a compiler or runtime state could not be represented safely",
        "preserve the inputs and report the deterministic failure context",
      ),
    )
    ∷ []

abbrev pub host_explanations : List (String × ExplanationText)
host_explanations =
    (
      "ASTER-HOST-11001",
      (
        "a host protocol frame is malformed or unsupported",
        "JSON, UTF-8, schema, protocol version, kind, or an exact nested payload shape is invalid",
        "send one supported schema-1 ASTER host frame with no unknown fields",
      ),
    )
    ∷ (
      "ASTER-HOST-11002",
      (
        "a host reply is stale, duplicate, out of order, or unsolicited",
        "the reply does not answer the one currently outstanding ASTER message",
        "reply exactly once to the current message_id before reading the next request",
      ),
    )
    ∷ (
      "ASTER-HOST-11003",
      (
        "a host session, request, or execution-grant binding does not match",
        "the session ID, request hash, or execution-grant hash was substituted or crossed between runs",
        "echo the exact identifiers from the outstanding ASTER frame",
      ),
    )
    ∷ (
      "ASTER-HOST-11004",
      (
        "a host maximum or actual usage declaration is invalid",
        "a usage dimension is unknown, duplicated, missing, exhausted, or above its admitted maximum",
        "declare each supported variable dimension once and report bounded exact actual usage",
      ),
    )
    ∷ (
      "ASTER-HOST-11005",
      (
        "host input ended before a required reply",
        "standard input reached EOF while ASTER still had one outstanding protocol message",
        "keep the transport open through the terminal completed or failed frame",
      ),
    )
    ∷ (
      "ASTER-HOST-11006",
      (
        "a host protocol frame could not be written completely",
        "standard output failed while ASTER was writing or flushing one JSON Lines frame",
        "restore the output transport and resume from the last durable snapshot and trace",
      ),
    )
    ∷ []

abbrev pub other_explanations : List (String × ExplanationText)
other_explanations =
    (
      "ASTER-NAME-1001",
      (
        "a referenced name has no declaration in its namespace", "the name is misspelled or absent",
        "declare the symbol or use an existing declared name",
      ),
    )
    ∷ (
      "ASTER-NAME-1002",
      (
        "a declaration identity appears more than once",
        "two declarations occupy the same module namespace and name",
        "rename or remove the later declaration",
      ),
    )
    ∷ (
      "ASTER-TYPE-2001",
      (
        "candidate data was used before validation",
        "Candidate<T> intentionally has no value projection",
        "validate candidate with a compatible validator to obtain Checked<T>",
      ),
    )
    ∷ (
      "ASTER-TYPE-2002",
      (
        "an expression type does not match its required type",
        "a call, binding, field, return, or operator received an incompatible value",
        "change the expression or its declared type so they match exactly",
      ),
    )
    ∷ (
      "ASTER-TYPE-2003",
      (
        "commit requires an explicit permit", "the mandatory `with <permit>` clause is absent",
        "authorize the proposal and commit it with the returned permit",
      ),
    )
    ∷ (
      "ASTER-TYPE-2004",
      (
        "a write tool has no idempotency parameter metadata",
        "write tools must identify a deterministic request key",
        "add `idempotency <parameter>;` for a serializable parameter",
      ),
    )
    ∷ (
      "ASTER-TYPE-2005",
      (
        "a permit action does not match the committed proposal action",
        "the proposal and permit have different action phantom types",
        "authorize and commit the same immutable proposal",
      ),
    )
    ∷ (
      "ASTER-EFFECT-3001",
      (
        "a write tool was invoked through observe", "observe is restricted to read-mode tools",
        "use intent, propose, authorize, and commit for writes",
      ),
    )
    ∷ (
      "ASTER-EFFECT-3002",
      (
        "a read tool was used to construct a proposal", "propose is restricted to write-mode tools",
        "invoke the read tool through observe",
      ),
    )
    ∷ (
      "ASTER-EFFECT-3003",
      (
        "a tool was called as an ordinary function",
        "tool declarations are effect metadata, not pure functions",
        "use observe for reads or the governed write pipeline for writes",
      ),
    )
    ∷ (
      "ASTER-EFFECT-3004",
      (
        "an external effect appears in a pure context",
        "functions, validators, and policies cannot yield effects",
        "move the effect to a flow or event handler and pass its result explicitly",
      ),
    )
    ∷ (
      "ASTER-EFFECT-3005",
      (
        "a direct or mutual call cycle was found", "ASTER 0.1 source computation must be finite",
        "replace recursion with a finite non-recursive expression",
      ),
    )
    ∷ []
