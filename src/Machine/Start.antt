-- ===== src/Machine/Start.antt =====
-- `Machine::start` of crates/aster-runtime/src/machine.rs and the checks that it makes: grants,
-- agent arguments, declared capabilities, the initial state and the limits of the budget. The
-- serialisation of the grants and of the whole request comes in as `grants_value` and
-- `request_value`; `runtime_version` is the version of the crate.
pub mod Entry
use aster_lang.Base.{
  ℕ, String, Bool, true, false, ◌&&◌, Option, none, some, List, [], ◌∷◌, str_eq, ◌==◌,
  if◌then◌else◌, length,
}
use aster_lang.Base.Maps.{BTreeMap, string_ord, lookup, insert}
use aster_lang.Base.Outcome.{Result, ok, err, ok_or, map_err, map_m, and_then, ◌>>=◌, ◌>>◌, ensure}
use aster_lang.Json.{Json, string, array, from_list, canonical_sha256}
use aster_lang.Budget.{BudgetDimension, dimension_ord, new}
use aster_lang.Authority.{empty_ledger}
use aster_lang.Capability.{
  CapabilityGrant, CapabilityGrants, CapabilityError, schema_mismatch, canonical, duplicate_grant,
  CompiledGrants, compile, permits,
}
use aster_lang.Ir.{
  Agent, CapabilitySpec, FieldSpec, StateFieldSpec, NamedExpression, Program, Routine, find_handler,
}
use aster_lang.Value
use aster_lang.Value.{RuntimeValue}
use aster_lang.Instant.{validate_instant}
use aster_lang.Machine.Errors.{
  MachineError, unknown_agent, unknown_event, missing_handler_parameter, missing_input,
  unknown_agent_argument, unknown_state_field, missing_capability, unknown_capability_grant,
  invalid_capability_grant, capability, canonical_error, stack_overflow,
}
use aster_lang.Machine.Decode.{
  Externals, json_object, has_name, decode_json, runtime_to_json, collect_map,
}
use aster_lang.Machine.Eval.{eval_expression}
use aster_lang.Machine.Eval.Arguments.{order_runtime_arguments}
use aster_lang.Machine.Eval.Rounds.{Locals}
use aster_lang.Machine.State.{Machine, MachineSnapshot}

pub record StartRequest : Type 0 where
  pub agent : String
  pub event : String
  pub event_id : String
  pub event_time : String
  pub agent_arguments : BTreeMap String Json
  pub payload : Json
  pub state : BTreeMap String Json
  pub capabilities : CapabilityGrants

abbrev pub capability_error : CapabilityError → MachineError
capability_error schema_mismatch = capability "capability grant schema mismatch"
capability_error canonical = capability "capability canonicalization failed"
capability_error duplicate_grant = capability "duplicate exact capability grant"

-- Any refusal of an argument is a refusal of the grant; a stack that runs out stays what it is.
abbrev grant_error : MachineError → MachineError
grant_error stack_overflow = stack_overflow
grant_error _ = invalid_capability_grant

unfoldable pub budget_dimension : String → Option BudgetDimension
budget_dimension name =
    if str_eq name "model_calls"
    then some BudgetDimension.model_calls
    else if str_eq name "model_tokens"
    then some BudgetDimension.model_tokens
    else if str_eq name "external_reads"
    then some BudgetDimension.external_reads
    else if str_eq name "external_writes"
    then some BudgetDimension.external_writes
    else if str_eq name "approvals"
    then some BudgetDimension.approvals
    else if str_eq name "money_microunits"
    then some BudgetDimension.money_microunits
    else none

abbrev add_limit :
    Option BudgetDimension → ℕ → BTreeMap BudgetDimension ℕ → BTreeMap BudgetDimension ℕ
add_limit none n limits = limits
add_limit (some d) n limits = insert d n limits

-- `budget_limits`, onto the limits collected so far
unfoldable pub collect_limits :
    BTreeMap BudgetDimension ℕ → BTreeMap String ℕ → BTreeMap BudgetDimension ℕ
unfolding budget_dimension
collect_limits limits [] = limits
collect_limits limits ((name, n) ∷ rest) =
    collect_limits (add_limit (budget_dimension name) n limits) rest

unfoldable pub budget_limits : BTreeMap String ℕ → BTreeMap BudgetDimension ℕ
unfolding collect_limits
budget_limits = collect_limits []

-- whether every key of a map satisfies the test
unfoldable pub all_names {ℓ} : {V : Type ℓ} → (String → Bool) → BTreeMap String V → Bool
all_names test [] = true
all_names test ((k, v) ∷ m) = test k && all_names test m

unfoldable pub validate_agent_argument_names :
    Agent → BTreeMap String Json → Result MachineError (Unit {0})
unfolding all_names has_name
validate_agent_argument_names agent arguments =
    ensure (all_names (λ name. has_name name agent.parameters) arguments) unknown_agent_argument

unfoldable pub has_field : String → List StateFieldSpec → Bool
has_field k [] = false
has_field k (f ∷ fs) = if str_eq f.name k then true else has_field k fs

-- the record under "self": the initial state, and the agent's arguments among the locals over it
unfoldable pub self_record : List FieldSpec → Locals → Locals → Locals
unfolding has_name
self_record parameters [] self = self
self_record parameters ((k, v) ∷ rest) self =
    self_record parameters rest (if has_name k parameters then insert k v self else self)

module _ (x : Externals) (depth : ℕ) where
  unfoldable pub check_grant_arguments :
      Program → List FieldSpec → List Json → Result MachineError (Unit {0})
  check_grant_arguments program (p ∷ ps) (a ∷ as') =
      and_then (map_err grant_error (decode_json x program depth a p.ty))
        λ _. check_grant_arguments program ps as'
  check_grant_arguments program _ _ = ok tt

  unfoldable pub validate_runtime_grants :
      Program → List CapabilityGrant → Result MachineError (Unit {0})
  unfolding check_grant_arguments
  validate_runtime_grants program [] = ok tt
  validate_runtime_grants program (g ∷ gs) =
      let later = validate_runtime_grants program gs in
      do
        parameters ←
            ok_or unknown_capability_grant (lookup g.capability program.catalog.capabilities)
        ensure (length parameters == length g.arguments) invalid_capability_grant
        check_grant_arguments program parameters g.arguments
        later

  abbrev declared_argument :
      Program → Locals → NamedExpression → Result MachineError (Option String × RuntimeValue)
  declared_argument program locals a =
      and_then (eval_expression x program depth a.value locals []) (λ v. ok (a.name, v))

  unfoldable pub validate_declared_capabilities :
      List CapabilitySpec → Locals → Program → CompiledGrants → Result MachineError (Unit {0})
  validate_declared_capabilities [] locals program grants = ok tt
  validate_declared_capabilities (c ∷ cs) locals program grants =
      let later = validate_declared_capabilities cs locals program grants in
      do
        parameters ← ok_or unknown_capability_grant (lookup c.name program.catalog.capabilities)
        supplied ← map_m (declared_argument program locals) c.arguments
        ordered ← order_runtime_arguments parameters supplied
        arguments ← map_m (runtime_to_json x) ordered
        permitted ← map_err capability_error (
            permits x.codec grants (
              json_object
                (("capability", string c.name) ∷ ("arguments", array (from_list arguments)) ∷ [])))
        ensure permitted missing_capability
        later

  abbrev initial_value :
      Program → Locals → StateFieldSpec → Option Json → Result MachineError RuntimeValue
  initial_value program locals f (some v) = decode_json x program depth v f.ty
  initial_value program locals f none = eval_expression x program depth f.default locals []

  abbrev initial_field :
      Program
      → BTreeMap String Json
      → Locals
      → StateFieldSpec
      → Result MachineError (String × RuntimeValue)
  initial_field program supplied locals f =
      and_then (initial_value program locals f (lookup f.name supplied)) (λ v. ok (f.name, v))

  unfoldable pub initial_state :
      Agent
      → BTreeMap String Json
      → Locals
      → Program
      → Result MachineError (BTreeMap String RuntimeValue)
  unfolding all_names has_field
  initial_state agent supplied locals program = do
    ensure (all_names (λ name. has_field name agent.state) supplied) unknown_state_field
    fields ← map_m (initial_field program supplied locals) agent.state
    ok (collect_map [] fields)

  -- the loop of `start` over the agent's parameters
  unfoldable pub argument_locals :
      Program → List FieldSpec → BTreeMap String Json → Locals → Result MachineError Locals
  argument_locals program [] arguments locals = ok locals
  argument_locals program (p ∷ ps) arguments locals = do
    value ← ok_or (missing_input p.name) (lookup p.name arguments)
    v ← decode_json x program depth value p.ty
    argument_locals program ps arguments (insert p.name v locals)

  abbrev single_parameter : List FieldSpec → Result MachineError FieldSpec
  single_parameter (p ∷ []) = ok p
  single_parameter _ = err missing_handler_parameter

  abbrev event_record : StartRequest → RuntimeValue
  event_record request = RuntimeValue.record_of (
      Value.from_map (
        insert "time" (RuntimeValue.text request.event_time)
          (insert "id" (RuntimeValue.text request.event_id) [])))

  module _ (runtime_version : String) (grants_value : CapabilityGrants → Result String Json)
      (request_value : StartRequest → Result String Json) where
    -- the snapshot that the machine starts with
    abbrev pub first_snapshot :
        Program
        → StartRequest
        → Agent
        → Routine
        → CompiledGrants
        → Locals
        → BTreeMap String RuntimeValue
        → String
        → MachineSnapshot
    first_snapshot program request agent routine compiled locals state input_hash = record {
      schema_version = 1;
      runtime_version = runtime_version;
      program_hash = program.program_hash;
      agent = request.agent;
      event = request.event;
      event_id = request.event_id;
      event_time = request.event_time;
      input_hash = input_hash;
      frames =
          record {
            routine = routine.name;
            instruction_pointer = 0;
            locals = locals;
            slots = [];
            return_target = none;
          }
          ∷ [];
      current_state = state;
      pending_state = [];
      budget = new (budget_limits agent.budget);
      grant_fingerprint = compiled.fingerprint;
      grant_request_hashes = compiled.request_hashes;
      authority = empty_ledger;
      outstanding_receipts = [];
      trace_position = 0;
      trace_hash = "";
      pending_effect = none;
      snapshot_hash = "";
    }

    unfoldable pub start : Program → StartRequest → Result MachineError Machine
    unfolding validate_agent_argument_names argument_locals self_record
    start program request = do
      validate_instant request.event_time
      validate_runtime_grants program request.capabilities.grants
      compiled ← map_err capability_error (compile x.codec grants_value request.capabilities)
      agent ← ok_or unknown_agent (lookup request.agent program.agents)
      validate_agent_argument_names agent request.agent_arguments
      routine ← ok_or unknown_event (find_handler program request.agent request.event)
      parameter ← single_parameter routine.parameters
      given ← argument_locals program agent.parameters request.agent_arguments []
      payload ← decode_json x program depth request.payload parameter.ty
      let locals = insert "event" (event_record request) (insert parameter.name payload given)
      validate_declared_capabilities agent.capabilities locals program compiled
      state ← initial_state agent request.state locals program
      let self = RuntimeValue.record_of (Value.from_map (self_record agent.parameters locals state))
      input_hash ← map_err canonical_error (canonical_sha256 x.codec (request_value request))
      ok (record {
        program = program;
        snapshot =
            first_snapshot program request agent routine compiled (insert "self" self locals) state
              input_hash;
        outcome = none;
        failure = none;
        audit_events = [];
      })
