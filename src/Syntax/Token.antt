-- ===== src/Syntax/Token.antt =====
-- crates/aster-syntax/src/token.rs: the tokens, and the words that are reserved.
use aster_lang.Base.{ℕ, String, Bool, true, false, Option, none, some, str_eq, if◌then◌else◌}
use aster_lang.Ir.{Span}

pub data Keyword : Type 0 where
  module_word type_word enum capability fn flow uses prompt instruction data_word validator :
      Keyword
  require tool mode read write sensitivity public internal private secret risk reversible : Keyword
  irreversible idempotency policy allow when approve by deny otherwise agent requires state :
      Keyword
  budget per_event on return let_word update if_word else_word match infer using validate : Keyword
  with observe intent propose for authorize commit reconcile against true_word false_word : Keyword

-- `Keyword::from_identifier`
unfoldable pub from_identifier : String → Option Keyword
from_identifier identifier =
    if str_eq identifier "module"
    then some module_word
    else if str_eq identifier "type"
    then some type_word
    else if str_eq identifier "enum"
    then some enum
    else if str_eq identifier "capability"
    then some capability
    else if str_eq identifier "fn"
    then some fn
    else if str_eq identifier "flow"
    then some flow
    else if str_eq identifier "uses"
    then some uses
    else if str_eq identifier "prompt"
    then some prompt
    else if str_eq identifier "instruction"
    then some instruction
    else if str_eq identifier "data"
    then some data_word
    else if str_eq identifier "validator"
    then some validator
    else if str_eq identifier "require"
    then some require
    else if str_eq identifier "tool"
    then some tool
    else if str_eq identifier "mode"
    then some mode
    else if str_eq identifier "read"
    then some read
    else if str_eq identifier "write"
    then some write
    else if str_eq identifier "sensitivity"
    then some sensitivity
    else if str_eq identifier "public"
    then some public
    else if str_eq identifier "internal"
    then some internal
    else if str_eq identifier "private"
    then some private
    else if str_eq identifier "secret"
    then some secret
    else if str_eq identifier "risk"
    then some risk
    else if str_eq identifier "reversible"
    then some reversible
    else if str_eq identifier "irreversible"
    then some irreversible
    else if str_eq identifier "idempotency"
    then some idempotency
    else if str_eq identifier "policy"
    then some policy
    else if str_eq identifier "allow"
    then some allow
    else if str_eq identifier "when"
    then some when
    else if str_eq identifier "approve"
    then some approve
    else if str_eq identifier "by"
    then some by
    else if str_eq identifier "deny"
    then some deny
    else if str_eq identifier "otherwise"
    then some otherwise
    else if str_eq identifier "agent"
    then some agent
    else if str_eq identifier "requires"
    then some requires
    else if str_eq identifier "state"
    then some state
    else if str_eq identifier "budget"
    then some budget
    else if str_eq identifier "per_event"
    then some per_event
    else if str_eq identifier "on"
    then some on
    else if str_eq identifier "return"
    then some return
    else if str_eq identifier "let"
    then some let_word
    else if str_eq identifier "update"
    then some update
    else if str_eq identifier "if"
    then some if_word
    else if str_eq identifier "else"
    then some else_word
    else if str_eq identifier "match"
    then some match
    else if str_eq identifier "infer"
    then some infer
    else if str_eq identifier "using"
    then some using
    else if str_eq identifier "validate"
    then some validate
    else if str_eq identifier "with"
    then some with
    else if str_eq identifier "observe"
    then some observe
    else if str_eq identifier "intent"
    then some intent
    else if str_eq identifier "propose"
    then some propose
    else if str_eq identifier "for"
    then some for
    else if str_eq identifier "authorize"
    then some authorize
    else if str_eq identifier "commit"
    then some commit
    else if str_eq identifier "reconcile"
    then some reconcile
    else if str_eq identifier "against"
    then some against
    else if str_eq identifier "true"
    then some true_word
    else if str_eq identifier "false"
    then some false_word
    else none

pub data Symbol : Type 0 where
  left_paren right_paren left_brace right_brace left_bracket right_bracket comma colon : Symbol
  semicolon dot question plus minus star slash bang equal less greater arrow fat_arrow : Symbol
  equal_equal bang_equal less_equal greater_equal and_and or_or : Symbol

pub data TokenKind : Type 0 where
  keyword : Keyword → TokenKind
  identifier model_alias : String → TokenKind
  integer : ℕ → TokenKind
  string block_string : String → TokenKind
  symbol : Symbol → TokenKind
  whitespace line_comment block_comment : String → TokenKind
  eof : TokenKind

-- `TokenKind::is_trivia`
abbrev pub is_trivia : TokenKind → Bool
is_trivia (whitespace t) = true
is_trivia (line_comment t) = true
is_trivia (block_comment t) = true
is_trivia _ = false

pub record Token : Type 0 where
  pub kind : TokenKind
  pub span : Span
