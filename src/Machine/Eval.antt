-- ===== src/Machine/Eval.antt =====
-- The pure evaluator of crates/aster-runtime/src/machine.rs: expressions, calls, patterns and pure
-- routines. The recursion goes to a given depth, as on a stack; `interpret` closes it.
pub mod Arguments
pub mod Rounds
use aster_lang.Base.{
  ℕ, zero, suc, ◌+◌, ◌^◌, String, Bool, true, false, not, ◌&&◌, ◌||◌, Option, none, some, List, [],
  ◌∷◌, ◌++◌, map, str_eq, ltb, ◌==◌, if◌then◌else◌, length, get_elem?,
}
use aster_lang.Base.Int.{
  ℤ, pos, checked_add, checked_minus, checked_mul, checked_div, checked_neg, less_int,
  less_equal_int, in_i64,
}
use aster_lang.Base.Maps.{BTreeMap, nat_ord, string_ord, lookup, insert, remove}
use aster_lang.Base.Outcome.{Result, ok, err, ok_or, map_m, and_then, ◌>>=◌, ◌>>◌, ensure}
use aster_lang.Base.Text.{◌+++◌, decimal, split_dot, last_segment}
use aster_lang.Json.{Json}
use aster_lang.Authority.{Proposal}
use aster_lang.Ir
use aster_lang.Ir.{
  PureExpression, PureBlockSpec, PureMatchArms, PatternSpec, wildcard, variant, NamedExpression,
  named_list, expression_list, Program, Routine, FieldSpec, TypeSpec, MatchTarget, find_routine,
}
use aster_lang.Value
use aster_lang.Value.{RuntimeValue, MaybeValue, absent, present, same_value}
use aster_lang.Instant.{add_seconds}
use aster_lang.Machine.Errors.{
  MachineError, type_mismatch, unknown_value, unknown_tool, unknown_routine, non_exhaustive_match,
  unsupported_pure_expression, requirement_failed, propagated_error, stack_overflow,
}
use aster_lang.Machine.Decode.{Externals, decode_json, collect_map}
use Arguments.{order_runtime_arguments}
use Rounds.{Locals, Slots, PatternBinding, unbound, bound, match_pattern, bind_pattern, run_routine}

abbrev pub result_error : String → RuntimeValue
result_error message = RuntimeValue.result_err (RuntimeValue.text message)

-- the enumerations' variants that a name may mean: `Enum.Variant`, or the variant alone
unfoldable pub enum_variants :
    String → String → BTreeMap String (Option TypeSpec) → List (String × Option TypeSpec)
enum_variants requested enum_name [] = []
enum_variants requested enum_name ((v, payload) ∷ rest) =
    let full = enum_name +++ "." +++ v in
    let others = enum_variants requested enum_name rest in
    if str_eq requested full || str_eq requested v then (full, payload) ∷ others else others

unfoldable pub enum_matches :
    String → BTreeMap String (BTreeMap String (Option TypeSpec)) → List (String × Option TypeSpec)
unfolding enum_variants
enum_matches requested [] = []
enum_matches requested ((enum_name, variants) ∷ rest) =
    enum_variants requested enum_name variants ++ enum_matches requested rest

abbrev construct : String → Option TypeSpec → List RuntimeValue → Result MachineError RuntimeValue
construct v none [] = ok (RuntimeValue.enum_of v absent)
construct v (some ty) (value ∷ []) = ok (RuntimeValue.enum_of v (present value))
construct v _ _ = err (type_mismatch "enum constructor")

abbrev unique_variant :
    List (String × Option TypeSpec) → List RuntimeValue → Result MachineError RuntimeValue
unique_variant [] values = err unsupported_pure_expression
unique_variant ((v, ty) ∷ []) values = construct v ty values
unique_variant (_ ∷ _ ∷ _) values = err unknown_value

unfoldable pub enum_constructor :
    String → List RuntimeValue → Program → Result MachineError RuntimeValue
unfolding enum_matches
enum_constructor requested values program =
    unique_variant (enum_matches requested program.catalog.enums) values

abbrev pub provenance_of : RuntimeValue → Result MachineError String
provenance_of (RuntimeValue.incoming v p) = ok p
provenance_of (RuntimeValue.untrusted v p) = ok p
provenance_of (RuntimeValue.candidate v p) = ok p
provenance_of (RuntimeValue.checked v p) = ok p
provenance_of (RuntimeValue.observation v p) = ok p
provenance_of (RuntimeValue.receipt a h v) = ok h
provenance_of (RuntimeValue.reconciled a h v) = ok h
provenance_of _ = err (type_mismatch "provenance-bearing wrapper")

unfoldable pub eval_unary : String → RuntimeValue → Result MachineError RuntimeValue
eval_unary operator (RuntimeValue.boolean b) =
    if str_eq operator "not"
    then ok (RuntimeValue.boolean (not b))
    else err (type_mismatch "unary operand")
eval_unary operator (RuntimeValue.int z) =
    if str_eq operator "negate"
    then (do n ← ok_or (type_mismatch "integer overflow") (checked_neg z); ok (RuntimeValue.int n))
    else err (type_mismatch "unary operand")
eval_unary operator _ = err (type_mismatch "unary operand")

abbrev checked : Option ℤ → Result MachineError RuntimeValue
checked none = err (type_mismatch "integer arithmetic")
checked (some z) = ok (RuntimeValue.int z)

unfoldable pub eval_integer_binary :
    String → RuntimeValue → RuntimeValue → Result MachineError RuntimeValue
eval_integer_binary operator (RuntimeValue.int a) (RuntimeValue.int b) =
    if str_eq operator "add"
    then checked (checked_add a b)
    else if str_eq operator "subtract"
    then checked (checked_minus a b)
    else if str_eq operator "multiply"
    then checked (checked_mul a b)
    else if str_eq operator "divide"
    then checked (checked_div a b)
    else if str_eq operator "less"
    then ok (RuntimeValue.boolean (less_int a b))
    else if str_eq operator "less_equal"
    then ok (RuntimeValue.boolean (less_equal_int a b))
    else if str_eq operator "greater"
    then ok (RuntimeValue.boolean (less_int b a))
    else if str_eq operator "greater_equal"
    then ok (RuntimeValue.boolean (less_equal_int b a))
    else err unsupported_pure_expression
eval_integer_binary operator _ _ = err (type_mismatch "integer operands")

abbrev eval_boolean : Bool → RuntimeValue → RuntimeValue → Result MachineError RuntimeValue
eval_boolean both (RuntimeValue.boolean a) (RuntimeValue.boolean b) =
    ok (RuntimeValue.boolean (if both then a && b else a || b))
eval_boolean both _ _ = err (type_mismatch "boolean operands")

unfoldable pub eval_binary : String → RuntimeValue → RuntimeValue → Result MachineError RuntimeValue
unfolding eval_integer_binary
eval_binary operator left right =
    if str_eq operator "equal"
    then ok (RuntimeValue.boolean (same_value left right))
    else if str_eq operator "not_equal"
    then ok (RuntimeValue.boolean (not (same_value left right)))
    else if str_eq operator "and" || str_eq operator "or"
    then eval_boolean (str_eq operator "and") left right
    else eval_integer_binary operator left right

unfoldable pub contains_value : List RuntimeValue → RuntimeValue → Bool
contains_value [] v = false
contains_value (w ∷ ws) v = same_value w v || contains_value ws v

unfoldable pub subset_of : List RuntimeValue → List RuntimeValue → Bool
unfolding contains_value
subset_of [] right = true
subset_of (v ∷ vs) right = contains_value right v && subset_of vs right

abbrev length_value : List RuntimeValue → Result MachineError RuntimeValue
length_value vs =
    if ltb (length vs) (2 ^ 63)
    then ok (RuntimeValue.int (pos (length vs)))
    else err (type_mismatch "list length")

abbrev first_value : List RuntimeValue → RuntimeValue
first_value [] = result_error "empty list"
first_value (v ∷ vs) = RuntimeValue.result_ok v

-- The built-in functions of one argument; `otherwise` is the last arm of the match.
abbrev call_one :
    String → RuntimeValue → Result MachineError RuntimeValue → Result MachineError RuntimeValue
call_one function value otherwise =
    if str_eq function "Ok"
    then ok (RuntimeValue.result_ok value)
    else if str_eq function "Err"
    then ok (RuntimeValue.result_err value)
    else if str_eq function "Some"
    then ok (RuntimeValue.option (present value))
    else if str_eq function "Human"
    then ok value
    else if str_eq function "provenance"
    then (do p ← provenance_of value; ok (RuntimeValue.text p))
    else otherwise

abbrev call_list :
    String → List RuntimeValue → Result MachineError RuntimeValue → Result MachineError RuntimeValue
call_list function values otherwise =
    if str_eq function "len"
    then length_value values
    else if str_eq function "first"
    then ok (first_value values)
    else otherwise

unfoldable pub call_builtin :
    String → List RuntimeValue → Result MachineError RuntimeValue → Result MachineError RuntimeValue
unfolding Value.to_list subset_of contains_value
call_builtin function (RuntimeValue.list vs ∷ []) otherwise =
    call_list function (Value.to_list vs) (call_one function (RuntimeValue.list vs) otherwise)
call_builtin function (v ∷ []) otherwise = call_one function v otherwise
call_builtin function (RuntimeValue.list vs ∷ RuntimeValue.list ws ∷ []) otherwise =
    if str_eq function "contains"
    then ok (RuntimeValue.boolean (contains_value (Value.to_list vs) (RuntimeValue.list ws)))
    else if str_eq function "subset"
    then ok (RuntimeValue.boolean (subset_of (Value.to_list vs) (Value.to_list ws)))
    else otherwise
call_builtin function (RuntimeValue.list vs ∷ v ∷ []) otherwise =
    if str_eq function "contains"
    then ok (RuntimeValue.boolean (contains_value (Value.to_list vs) v))
    else otherwise
call_builtin function (RuntimeValue.text instant ∷ RuntimeValue.int seconds ∷ []) otherwise =
    if str_eq function "add_seconds"
    then (do t ← add_seconds instant seconds; ok (RuntimeValue.text t))
    else otherwise
call_builtin function _ otherwise = otherwise

-- the type of an argument of a proposal's tool
unfoldable pub parameter_type : String → List FieldSpec → Option TypeSpec
parameter_type k [] = none
parameter_type k (f ∷ fs) = if str_eq f.name k then some f.ty else parameter_type k fs

module _ (program : Program) (decode : Json → TypeSpec → Result MachineError RuntimeValue) where
  unfoldable pub proposal_argument :
      List FieldSpec → String × Json → Result MachineError (String × RuntimeValue)
  unfolding parameter_type
  proposal_argument parameters (k, v) = do
    ty ← ok_or unknown_value (parameter_type k parameters)
    d ← decode v ty
    ok (k, d)

  abbrev project_proposal : Proposal → String → Result MachineError RuntimeValue
  project_proposal p field =
      if str_eq field "args"
      then (do
        tool ← ok_or unknown_tool (lookup p.action program.catalog.tools)
        members ← map_m (proposal_argument tool.parameters) p.arguments
        ok (RuntimeValue.record_of (Value.from_map (collect_map [] members))))
      else if str_eq field "intent"
      then ok (RuntimeValue.intent p.intent)
      else if str_eq field "risk"
      then ok (RuntimeValue.text p.risk)
      else if str_eq field "action"
      then ok (RuntimeValue.text p.action)
      else if str_eq field "idempotency_key"
      then ok (RuntimeValue.text p.idempotency_key)
      else err unknown_value

  abbrev value_only : String → RuntimeValue → Result MachineError RuntimeValue
  value_only field v = if str_eq field "value" then ok v else err unknown_value

  unfoldable pub project : RuntimeValue → String → Result MachineError RuntimeValue
  unfolding Value.to_map proposal_argument
  project (RuntimeValue.incoming v p) field = value_only field v
  project (RuntimeValue.untrusted v p) field = value_only field v
  project (RuntimeValue.checked v p) field = value_only field v
  project (RuntimeValue.observation v p) field = value_only field v
  project (RuntimeValue.record_of ms) field = ok_or unknown_value (lookup field (Value.to_map ms))
  project (RuntimeValue.proposal p) field = project_proposal p field
  project (RuntimeValue.receipt a h v) field = value_only field v
  project (RuntimeValue.reconciled a h v) field = value_only field v
  project _ field = err unknown_value

  unfoldable pub project_all : RuntimeValue → List String → Result MachineError RuntimeValue
  unfolding project
  project_all v [] = ok v
  project_all v (field ∷ rest) = and_then (project v field) (λ w. project_all w rest)

  abbrev pub path_root : Locals → String → Result MachineError RuntimeValue
  path_root locals first =
      if str_eq first "Unit"
      then ok RuntimeValue.unit
      else if str_eq first "None"
      then ok (RuntimeValue.option absent)
      else ok_or unknown_value (lookup first locals)

  -- A path that names no variant is a local and its fields.
  abbrev pub path_outcome :
      Result MachineError RuntimeValue
      → Result MachineError RuntimeValue
      → Result MachineError RuntimeValue
  path_outcome (ok v) otherwise = ok v
  path_outcome (err unsupported_pure_expression) otherwise = otherwise
  path_outcome (err e) otherwise = err e

  unfoldable pub resolve_path : String → Locals → Result MachineError RuntimeValue
  unfolding project_all enum_constructor split_dot
  resolve_path path locals =
      path_outcome (enum_constructor path [] program)
        (do v ← path_root locals (split_dot path).0; project_all v (split_dot path).1)

  -- One level of evaluation: `recur` evaluates the parts, and `run` a routine.
  module _ (recur : PureExpression → Locals → Slots → Result MachineError RuntimeValue)
      (run : String → List RuntimeValue → Result MachineError RuntimeValue) where
    abbrev pub eval_argument :
        Locals → Slots → NamedExpression → Result MachineError (Option String × RuntimeValue)
    eval_argument locals slots a = and_then (recur a.value locals slots) (λ v. ok (a.name, v))

    -- `eval_named_expressions`, from an index on
    unfoldable pub eval_fields :
        Locals
        → Slots
        → ℕ
        → List NamedExpression
        → Result MachineError (List (String × RuntimeValue))
    eval_fields locals slots index [] = ok []
    eval_fields locals slots index (f ∷ fs) =
        let rest = eval_fields locals slots (suc index) fs in
        and_then (recur f.value locals slots)
          λ v. and_then rest λ vs. ok ((elim f.name [ some n ↦ n | none ↦ decimal index ], v) ∷ vs)

    -- `eval_pure_block`, with the result so far
    unfoldable pub eval_block :
        Locals → Slots → RuntimeValue → PureBlockSpec → Result MachineError RuntimeValue
    eval_block locals slots result PureBlockSpec.no_statements = ok result
    eval_block locals slots result (PureBlockSpec.let_in name value rest) =
        and_then (recur value locals slots)
          λ v. eval_block (insert name v locals) slots RuntimeValue.unit rest
    eval_block locals slots result (PureBlockSpec.require_in condition rest) =
        and_then (recur condition locals slots) λ v.
          and_then (ensure (same_value v (RuntimeValue.boolean true)) requirement_failed)
            λ _. eval_block locals slots RuntimeValue.unit rest
    eval_block locals slots result (PureBlockSpec.expression_in value rest) =
        and_then (recur value locals slots) (λ v. eval_block locals slots v rest)

    unfoldable pub find_arm :
        RuntimeValue → PureMatchArms → Option (PureExpression × PatternBinding)
    find_arm v PureMatchArms.no_arms = none
    find_arm v (PureMatchArms.more_arms p e rest) = elim (match_pattern v p) [
      | some b ↦ some (e, b)
      | none ↦ find_arm v rest
    ]

    -- `eval_call`
    unfoldable pub eval_call :
        String → List (Option String × RuntimeValue) → Result MachineError RuntimeValue
    unfolding call_builtin enum_constructor
    eval_call function arguments = elim (find_routine program function) [
      | some routine ↦ (do
        values ← order_runtime_arguments routine.parameters arguments
        run function values)
      | none ↦
          let values = map (λ a. a.1) arguments in
          call_builtin function values (enum_constructor function values program)
    ]

    abbrev pub eval_if :
        RuntimeValue
        → Result MachineError RuntimeValue
        → Result MachineError RuntimeValue
        → Result MachineError RuntimeValue
    eval_if (RuntimeValue.boolean true) then_value else_value = then_value
    eval_if (RuntimeValue.boolean false) then_value else_value = else_value
    eval_if _ then_value else_value = err (type_mismatch "if condition")

    unfoldable pub eval_step : PureExpression → Locals → Slots → Result MachineError RuntimeValue
    unfolding eval_fields eval_block find_arm eval_call resolve_path project eval_unary eval_binary
    eval_step PureExpression.unit locals slots = ok RuntimeValue.unit
    eval_step (PureExpression.boolean b) locals slots = ok (RuntimeValue.boolean b)
    eval_step (PureExpression.int z) locals slots = ok (RuntimeValue.int z)
    eval_step (PureExpression.text s) locals slots = ok (RuntimeValue.text s)
    eval_step (PureExpression.path p) locals slots = resolve_path p locals
    eval_step (PureExpression.slot id) locals slots = ok_or unknown_value (lookup id slots)
    eval_step (PureExpression.list es) locals slots = do
      vs ← map_m (λ e. recur e locals slots) (expression_list es)
      ok (RuntimeValue.list (Value.from_list vs))
    eval_step (PureExpression.record_of ty fields) locals slots = do
      vs ← eval_fields locals slots 0 (named_list fields)
      ok (RuntimeValue.record_of (Value.from_map (collect_map [] vs)))
    eval_step (PureExpression.field target name) locals slots = do
      v ← recur target locals slots
      project v name
    eval_step (PureExpression.unary operator operand) locals slots = do
      v ← recur operand locals slots
      eval_unary operator v
    eval_step (PureExpression.binary left operator right) locals slots = do
      a ← recur left locals slots
      b ← recur right locals slots
      eval_binary operator a b
    eval_step (PureExpression.call function arguments) locals slots = do
      values ← map_m (eval_argument locals slots) (named_list arguments)
      eval_call function values
    eval_step (PureExpression.if_else condition then_block else_block) locals slots = do
      v ← recur condition locals slots
      eval_if v (eval_block locals slots RuntimeValue.unit then_block)
          (eval_block locals slots RuntimeValue.unit else_block)
    eval_step (PureExpression.match_on value arms) locals slots = do
      v ← recur value locals slots
      found ← ok_or non_exhaustive_match (find_arm v arms)
      recur found.0 (bind_pattern found.1 locals) slots

-- What the evaluator is asked: an expression, or a routine by its name.
pub data Request : Type 0 where
  expression : PureExpression → Locals → Slots → Request
  routine : String → List RuntimeValue → Request

module _ (x : Externals) (program : Program) where
  -- `eval_expression` and `eval_routine`, to a depth of recursion that also bounds the steps of
  -- each routine
  unfoldable pub interpret : ℕ → Request → Result MachineError RuntimeValue
  unfolding eval_step run_routine
  interpret zero request = err stack_overflow
  interpret (suc depth) (expression e locals slots) =
      eval_step program (decode_json x program depth)
        (λ e' l s. interpret depth (expression e' l s)) (λ n vs. interpret depth (routine n vs)) e
        locals slots
  interpret (suc depth) (routine name arguments) =
      run_routine program (λ e' l s. interpret depth (expression e' l s))
        (λ n vs. interpret depth (routine n vs)) depth name arguments

  abbrev pub eval_expression :
      ℕ → PureExpression → Locals → Slots → Result MachineError RuntimeValue
  eval_expression depth e locals slots = interpret depth (expression e locals slots)
