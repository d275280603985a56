-- ===== src/Ir.antt =====
-- crates/aster-ir/src/domain.rs: the lowered program that the machine runs. A `u32` is a number.
-- A list inside a recursive type is a type of its own, declared with it.
use aster_lang.Base.{ℕ, String, Bool, Option, none, some, List, [], ◌∷◌}
use aster_lang.Base.Int.{ℤ}
use aster_lang.Base.Maps.{BTreeMap, string_ord, lookup}
use aster_lang.Base.Text.{◌+++◌}

mutual
  pub data TypeSpec : Type 0 where
    type_spec : String → TypeSpecs → TypeSpec

  pub data TypeSpecs : Type 0 where
    nil : TypeSpecs
    cons : TypeSpec → TypeSpecs → TypeSpecs

pub record FieldSpec : Type 0 where
  pub name : String
  pub ty : TypeSpec

pub data PatternSpec : Type 0 where
  wildcard : PatternSpec
  variant : String → Option String → PatternSpec

mutual
  pub data PureExpression : Type 0 where
    unit : PureExpression
    boolean : Bool → PureExpression
    int : ℤ → PureExpression
    text path : String → PureExpression
    list : Expressions → PureExpression
    record_of : String → NamedExpressions → PureExpression
    field : PureExpression → String → PureExpression
    unary : String → PureExpression → PureExpression
    binary : PureExpression → String → PureExpression → PureExpression
    call : String → NamedExpressions → PureExpression
    if_else : PureExpression → PureBlockSpec → PureBlockSpec → PureExpression
    match_on : PureExpression → PureMatchArms → PureExpression
    slot : ℕ → PureExpression

  pub data Expressions : Type 0 where
    no_expressions : Expressions
    more_expressions : PureExpression → Expressions → Expressions

  pub data NamedExpressions : Type 0 where
    no_named : NamedExpressions
    more_named : Option String → PureExpression → NamedExpressions → NamedExpressions

  pub data PureBlockSpec : Type 0 where
    no_statements : PureBlockSpec
    let_in : String → PureExpression → PureBlockSpec → PureBlockSpec
    require_in : PureExpression → PureBlockSpec → PureBlockSpec
    expression_in : PureExpression → PureBlockSpec → PureBlockSpec

  pub data PureMatchArms : Type 0 where
    no_arms : PureMatchArms
    more_arms : PatternSpec → PureExpression → PureMatchArms → PureMatchArms

pub record NamedExpression : Type 0 where
  pub name : Option String
  pub value : PureExpression

unfoldable pub named_list : NamedExpressions → List NamedExpression
named_list no_named = []
named_list (more_named n e es) = record { name = n; value = e } ∷ named_list es

unfoldable pub expression_list : Expressions → List PureExpression
expression_list no_expressions = []
expression_list (more_expressions e es) = e ∷ expression_list es

pub record StateFieldSpec : Type 0 where
  pub name : String
  pub ty : TypeSpec
  pub default : PureExpression

pub record PromptSpec : Type 0 where
  pub parameters : List FieldSpec
  pub result_type : TypeSpec
  pub instruction : String
  pub data_names : List String

pub record CapabilitySpec : Type 0 where
  pub name : String
  pub arguments : List NamedExpression

pub data ToolMode : Type 0 where
  read write : ToolMode

pub record ToolSpec : Type 0 where
  pub parameters : List FieldSpec
  pub result_type : TypeSpec
  pub mode : ToolMode
  pub capability : Option CapabilitySpec
  pub idempotency : Option String
  pub risk : Option String
  pub sensitivity : Option String

pub record Span : Type 0 where
  pub file : String
  pub start : ℕ
  pub end : ℕ
  pub line : ℕ
  pub column : ℕ

pub record ValidatorRequirementSpec : Type 0 where
  pub expression : PureExpression
  pub span : Span

pub record ValidatorSpec : Type 0 where
  pub parameters : List FieldSpec
  pub requirements : List ValidatorRequirementSpec

pub data PolicyDecisionSpec : Type 0 where
  allow : PolicyDecisionSpec
  approve deny : PureExpression → PolicyDecisionSpec

pub record PolicyRuleSpec : Type 0 where
  pub decision : PolicyDecisionSpec
  pub condition : Option PureExpression

pub record PolicySpec : Type 0 where
  pub parameters : List FieldSpec
  pub rules : List PolicyRuleSpec

pub record NamedValue : Type 0 where
  pub name : Option String
  pub value : ℕ

pub record MatchTarget : Type 0 where
  pub pattern_spec : PatternSpec
  pub target : ℕ

pub data InstructionKind : Type 0 where
  evaluate : (target : ℕ) (expression : PureExpression) → InstructionKind
  bind : (name : String) (value : ℕ) → InstructionKind
  copy : (target source : ℕ) → InstructionKind
  call_routine : (target : ℕ) (routine : String) (arguments : List NamedValue) → InstructionKind
  unwrap_result : (target result : ℕ) → InstructionKind
  branch : (condition then_target else_target : ℕ) → InstructionKind
  jump : (target : ℕ) → InstructionKind
  match_value : (value : ℕ) (arms : List MatchTarget) → InstructionKind
  infer :
      (target : ℕ) (prompt : String) (arguments : List NamedValue) (model_alias : String)
      → InstructionKind
  validate : (target candidate : ℕ) (validator : String) → InstructionKind
  observe : (target : ℕ) (action : String) (arguments : List NamedValue) → InstructionKind
  construct_intent : (target : ℕ) (purpose : String) (fields : List NamedValue) → InstructionKind
  construct_proposal :
      (target : ℕ) (action : String) (arguments : List NamedValue) (intent : ℕ) → InstructionKind
  authorize :
      (target proposal : ℕ) (policy : String) (approval_may_suspend : Bool) → InstructionKind
  commit : (target proposal permit : ℕ) → InstructionKind
  reconcile : (target receipt observation : ℕ) (validator : String) → InstructionKind
  require : (condition : ℕ) → InstructionKind
  update_state : (fields : List NamedValue) → InstructionKind
  return_value : (value : ℕ) → InstructionKind

pub record Instruction : Type 0 where
  pub id : ℕ
  pub kind : InstructionKind

pub record Routine : Type 0 where
  pub name : String
  pub parameters : List FieldSpec
  pub return_type : TypeSpec
  pub instructions : List Instruction

pub record Agent : Type 0 where
  pub parameters : List FieldSpec
  pub state : List StateFieldSpec
  pub budget : BTreeMap String ℕ
  pub handlers : BTreeMap String String
  pub capabilities : List CapabilitySpec

pub record Catalog : Type 0 where
  pub aliases : BTreeMap String TypeSpec
  pub capabilities : BTreeMap String (List FieldSpec)
  pub records : BTreeMap String (List FieldSpec)
  pub enums : BTreeMap String (BTreeMap String (Option TypeSpec))
  pub prompts : BTreeMap String PromptSpec
  pub tools : BTreeMap String ToolSpec
  pub validators : BTreeMap String ValidatorSpec
  pub policies : BTreeMap String PolicySpec

pub record Program : Type 0 where
  pub schema_version : ℕ
  pub compiler_version : String
  pub module_name : String
  pub source_hash : String
  pub program_hash : String
  pub routines : BTreeMap String Routine
  pub agents : BTreeMap String Agent
  pub catalog : Catalog

-- `Program::routine`
unfoldable pub find_routine : Program → String → Option Routine
find_routine p name = elim (lookup ("fn:" +++ name) p.routines) [
  | some r ↦ some r
  | none ↦ elim (lookup ("flow:" +++ name) p.routines) [
    | some r ↦ some r
    | none ↦ lookup name p.routines
  ]
]

-- `Program::handler`
unfoldable pub find_handler : Program → (agent event : String) → Option Routine
find_handler p agent event = elim (lookup agent p.agents) [
  | none ↦ none
  | some a ↦ elim (lookup event a.handlers) [ none ↦ none | some key ↦ lookup key p.routines ]
]
