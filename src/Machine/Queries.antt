-- ===== src/Machine/Queries.antt =====
-- What the machine of crates/aster-runtime/src/machine.rs computes from its state without changing
-- it: the arguments of calls as JSON, validators, policies, capability requests, and the hashes of
-- effect requests.
use aster_lang.Base.{
  ℕ, suc, String, Bool, true, Option, none, some, List, [], ◌∷◌, ◌==◌, if◌then◌else◌, length,
}
use aster_lang.Base.Maps.{BTreeMap, nat_ord, string_ord, lookup, insert, contains}
use aster_lang.Base.Outcome.{Result, ok, err, ok_or, map_err, map_m, and_then, ◌>>=◌, ensure}
use aster_lang.Base.Text.{◌+++◌, decimal}
use aster_lang.Json.{Json, string, array, null, from_list, canonical_sha256}
use aster_lang.Authority.{Proposal}
use aster_lang.Ir.{
  CapabilitySpec, FieldSpec, NamedValue, NamedExpression, PureExpression, PolicyDecisionSpec, allow,
  approve, deny, PolicyRuleSpec, Program, ValidatorRequirementSpec,
}
use aster_lang.Value.{RuntimeValue, same_value}
use aster_lang.Machine.Errors.{
  MachineError, type_mismatch, unknown_value, unknown_validator, unknown_policy, non_total_policy,
  unknown_capability_grant, missing_capability, canonical_error,
}
use aster_lang.Machine.Decode.{
  Externals, json_object, runtime_to_json, json_to_runtime, collect_map, is_null,
}
use aster_lang.Machine.Eval.{eval_expression}
use aster_lang.Machine.Eval.Arguments.{order_runtime_arguments}
use aster_lang.Machine.Eval.Rounds.{Locals, zip_parameters, named_locals}
use aster_lang.Machine.State.{EffectKind, EffectRequest, FrameSnapshot, Machine, slot_of, top_frame}

-- the name of an argument, or its index
abbrev pub name_or_index : Option String → ℕ → String
name_or_index none index = decimal index
name_or_index (some name) index = name

-- the kinds as `serde` names them
abbrev pub kind_name : EffectKind → String
kind_name EffectKind.model = "model"
kind_name EffectKind.read = "read"
kind_name EffectKind.approval = "approval"
kind_name EffectKind.write = "write"

unfoldable pub supplied_values :
    Machine → List NamedValue → Result MachineError (List (Option String × RuntimeValue))
supplied_values m = map_m (λ a. and_then (slot_of a.value m) (λ v. ok (a.name, v)))

-- `named_runtime_values`, before they are collected
unfoldable pub indexed_values :
    Machine → ℕ → List NamedValue → Result MachineError (List (String × RuntimeValue))
indexed_values m index [] = ok []
indexed_values m index (a ∷ as') =
    let rest = indexed_values m (suc index) as' in
    and_then (slot_of a.value m)
      λ v. and_then rest (λ vs. ok ((name_or_index a.name index, v) ∷ vs))

unfoldable pub named_runtime_values :
    Machine → List NamedValue → Result MachineError (BTreeMap String RuntimeValue)
unfolding indexed_values
named_runtime_values m values = and_then (indexed_values m 0 values) (λ vs. ok (collect_map [] vs))

-- the frame that the machine started with: the first of the vector, the last here
unfoldable pub first_frame : List FrameSnapshot → Option FrameSnapshot
first_frame [] = none
first_frame (f ∷ []) = some f
first_frame (f ∷ g ∷ fs) = first_frame (g ∷ fs)

-- What a policy decides for a proposal.
pub data PolicyRuntimeDecision : Type 0 where
  allows : PolicyRuntimeDecision
  approves : RuntimeValue → PolicyRuntimeDecision
  denies : String → PolicyRuntimeDecision

module _ (x : Externals) (depth : ℕ) where
  abbrev value_json : String × RuntimeValue → Result MachineError (String × Json)
  value_json (k, v) = and_then (runtime_to_json x v) (λ j. ok (k, j))

  -- the loop of `named_values_json` from an index on: each slot is read and then made JSON
  unfoldable pub indexed_json :
      Machine → ℕ → List NamedValue → Result MachineError (List (String × Json))
  indexed_json m index [] = ok []
  indexed_json m index (a ∷ as') =
      let rest = indexed_json m (suc index) as' in
      and_then (slot_of a.value m) λ v.
        and_then (runtime_to_json x v)
          λ j. and_then rest (λ js. ok ((name_or_index a.name index, j) ∷ js))

  -- `named_values_json`, as the entries of the map
  unfoldable pub named_values_json :
      Machine → List NamedValue → Result MachineError (BTreeMap String Json)
  unfolding indexed_json
  named_values_json m values = and_then (indexed_json m 0 values) (λ js. ok (collect_map [] js))

  -- `call_values_json`, as the entries of the map
  unfoldable pub call_values_json :
      Machine → List FieldSpec → List NamedValue → Result MachineError (BTreeMap String Json)
  unfolding supplied_values
  call_values_json m parameters values = do
    supplied ← supplied_values m values
    ordered ← order_runtime_arguments parameters supplied
    js ← map_m value_json (zip_parameters parameters ordered)
    ok (collect_map [] js)

  unfoldable pub failure_places :
      Program → Locals → List ValidatorRequirementSpec → Result MachineError (List String)
  failure_places program locals [] = ok []
  failure_places program locals (r ∷ rs) =
      let others = failure_places program locals rs in
      let place = r.span.file +++ ":" +++ decimal r.span.line +++ ":" +++ decimal r.span.column in
      and_then (eval_expression x program depth r.expression locals []) λ v.
        and_then others
          λ fs. ok (if same_value v (RuntimeValue.boolean true) then fs else place ∷ fs)

  -- `Machine::validator_failures`
  unfoldable pub validator_failures :
      Machine → String → List RuntimeValue → Result MachineError (List String)
  unfolding failure_places
  validator_failures m name values = do
    v ← ok_or unknown_validator (lookup name m.program.catalog.validators)
    failure_places m.program (named_locals [] (zip_parameters v.parameters values)) v.requirements

  abbrev rule_holds : Program → Locals → Option PureExpression → Result MachineError Bool
  rule_holds program locals none = ok true
  rule_holds program locals (some condition) =
      and_then (eval_expression x program depth condition locals [])
        λ v. ok (same_value v (RuntimeValue.boolean true))

  abbrev denial : RuntimeValue → Result MachineError PolicyRuntimeDecision
  denial (RuntimeValue.text reason) = ok (denies reason)
  denial _ = err (type_mismatch "policy reason")

  abbrev decide : Program → Locals → PolicyDecisionSpec → Result MachineError PolicyRuntimeDecision
  decide program locals allow = ok allows
  decide program locals (approve principal) =
      and_then (eval_expression x program depth principal locals []) (λ v. ok (approves v))
  decide program locals (deny reason) =
      and_then (eval_expression x program depth reason locals []) denial

  -- the first rule whose condition holds decides
  unfoldable pub first_rule :
      Program → Locals → List PolicyRuleSpec → Result MachineError PolicyRuntimeDecision
  first_rule program locals [] = err non_total_policy
  first_rule program locals (r ∷ rs) =
      let later = first_rule program locals rs in
      and_then (rule_holds program locals r.condition)
        λ holds. if holds then decide program locals r.decision else later

  abbrev self_value : Machine → Result MachineError RuntimeValue
  self_value m = elim (first_frame m.snapshot.frames) [
    | none ↦ err unknown_value
    | some f ↦ ok_or unknown_value (lookup "self" f.locals)
  ]

  -- `Machine::policy_decision`
  unfoldable pub policy_decision :
      Machine → String → Proposal → Result MachineError PolicyRuntimeDecision
  unfolding first_rule first_frame
  policy_decision m name proposal = do
    policy ← ok_or unknown_policy (lookup name m.program.catalog.policies)
    values ←
        (if length policy.parameters == 2
          then and_then (self_value m) (λ self. ok (RuntimeValue.proposal proposal ∷ self ∷ []))
          else ok (RuntimeValue.proposal proposal ∷ []))
    first_rule m.program (named_locals [] (zip_parameters policy.parameters values)) policy.rules

  -- the arguments of a tool, as locals over the frame's
  unfoldable pub with_arguments : Locals → BTreeMap String Json → Result MachineError Locals
  with_arguments locals [] = ok locals
  with_arguments locals ((k, v) ∷ rest) =
      and_then (json_to_runtime x v) (λ d. with_arguments (insert k d locals) rest)

  abbrev capability_argument :
      Program
      → Locals
      → BTreeMap ℕ RuntimeValue
      → NamedExpression
      → Result MachineError (Option String × RuntimeValue)
  capability_argument program locals slots a =
      and_then (eval_expression x program depth a.value locals slots) (λ v. ok (a.name, v))

  -- the request of a capability whose arguments are evaluated
  unfoldable pub request_of :
      Program → Locals → BTreeMap ℕ RuntimeValue → CapabilitySpec → Result MachineError Json
  request_of program locals slots capability = do
    parameters ←
        ok_or unknown_capability_grant (lookup capability.name program.catalog.capabilities)
    supplied ← map_m (capability_argument program locals slots) capability.arguments
    ordered ← order_runtime_arguments parameters supplied
    arguments ← map_m (runtime_to_json x) ordered
    ok (
        json_object (
          ("capability", string capability.name) ∷ ("arguments", array (from_list arguments)) ∷ []))

  -- `Machine::capability_request_json`
  unfoldable pub capability_request_json :
      Machine → Option CapabilitySpec → BTreeMap String Json → Result MachineError Json
  unfolding with_arguments request_of
  capability_request_json m none arguments = ok null
  capability_request_json m (some capability) arguments = do
    f ← top_frame m
    locals ← with_arguments f.locals arguments
    request_of m.program locals f.slots capability

  -- `Machine::require_capability`
  unfoldable pub require_capability : Machine → Json → Result MachineError (Unit {0})
  require_capability m request = if is_null request then ok tt else (do
    hash ← map_err canonical_error (canonical_sha256 x.codec (ok request))
    ensure (contains hash m.snapshot.grant_request_hashes) missing_capability)

  unfoldable pub effect_request : EffectKind → String → Json → Result MachineError EffectRequest
  effect_request kind identity payload = do
    hash ← map_err canonical_error (
        canonical_sha256 x.codec (
          ok (
            json_object (
              ("kind", string (kind_name kind))
              ∷ ("identity", string identity)
              ∷ ("payload", payload)
              ∷ []))))
    ok (record { kind = kind; identity = identity; payload = payload; request_hash = hash })
