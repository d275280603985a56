-- ===== src/Syntax.antt =====
-- crates/aster-syntax: the source text, its tokens and the lexer. The parser and the formatter are
-- not modelled.
pub mod Source
pub mod Token
pub mod Loops
pub mod Lexer
