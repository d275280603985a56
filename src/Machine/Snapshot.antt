-- ===== src/Machine/Snapshot.antt =====
-- Saving and restoring the machine of crates/aster-runtime/src/machine.rs: `validate_no_secrets`,
-- `seal`, `snapshot`, `restore`, `to_json` and `from_json`. What `serde` derives for a snapshot
-- comes in as `snapshot_value`, `snapshot_text` and `snapshot_of_text`; `runtime_version` is the
-- version of the crate. The proofs are in the module below.
pub mod Restored
use aster_lang.Base.{
  ℕ, String, Bool, true, false, not, Option, none, some, List, [], ◌∷◌, str_eq, ◌==◌,
}
use aster_lang.Base.Maps.{BTreeMap, string_ord}
use aster_lang.Base.Outcome.{Result, ok, err, map_err, and_then, ◌>>=◌, ◌>>◌, ensure}
use aster_lang.Base.Text.{decimal}
use aster_lang.Json.{Json, CanonicalError, canonical_sha256}
use aster_lang.Authority.{validate_ledger, validate_proposal}
use aster_lang.Ir.{Program}
use aster_lang.Value.{RuntimeValue, validate_governance, SnapshotError, snapshot_values}
use aster_lang.Machine.Errors.{
  MachineError, authority, authority_error, canonical_error, canonical_message,
  serialization_failure, program_mismatch, snapshot_schema_mismatch, runtime_version_mismatch,
  snapshot_hash_mismatch, secret_persistence_rejected,
}
use aster_lang.Machine.Decode.{Externals, collect_map}
use aster_lang.Machine.State.{
  Machine, MachineSnapshot, FrameSnapshot, PendingEffect, PendingCompletion, approval_completion,
  AuditEvent,
}

abbrev governance_error : CanonicalError → MachineError
governance_error e = authority (canonical_message e)

abbrev persistence_error : SnapshotError → MachineError
persistence_error e = secret_persistence_rejected

-- `Machine::take_audit_events`
abbrev pub take_audit_events : Machine → List AuditEvent × Machine
take_audit_events m = (m.audit_events, record m { audit_events = [] })

-- `Machine::set_trace_checkpoint`
abbrev pub set_trace_checkpoint : ℕ → String → Machine → Machine
set_trace_checkpoint position hash m = record m {
  snapshot = record m.snapshot { trace_position = position; trace_hash = hash };
}

module _ (x : Externals) where
  -- `values().try_for_each(RuntimeValue::validate_governance)`
  unfoldable pub check_governance :
      {K : Type 0} → BTreeMap K RuntimeValue → Result CanonicalError (Unit {0})
  check_governance [] = ok tt
  check_governance ((k, v) ∷ m) =
      let rest = check_governance m in
      and_then (validate_governance x.codec x.proposal_value v) (λ _. rest)

  unfoldable pub check_values : BTreeMap String RuntimeValue → Result MachineError (Unit {0})
  check_values values = do
    text ← map_err persistence_error (snapshot_values x.values_text values)
    map_err governance_error (check_governance values)

  -- the slots under the texts of their ids
  unfoldable pub slot_texts : BTreeMap ℕ RuntimeValue → List (String × RuntimeValue)
  slot_texts [] = []
  slot_texts ((id, v) ∷ rest) = (decimal id, v) ∷ slot_texts rest

  unfoldable pub check_frame : FrameSnapshot → Result MachineError (Unit {0})
  unfolding check_values slot_texts
  check_frame f = do
    check_values f.locals
    text ←
        map_err persistence_error
          (snapshot_values x.values_text (collect_map [] (slot_texts f.slots)))
    map_err governance_error (check_governance f.slots)

  -- the first frame of the vector is the last here
  unfoldable pub check_frames : List FrameSnapshot → Result MachineError (Unit {0})
  check_frames [] = ok tt
  check_frames (f ∷ fs) = let first = check_frames fs in and_then first (λ _. check_frame f)

  abbrev pub check_pending : Option PendingEffect → Result MachineError (Unit {0})
  check_pending none = ok tt
  check_pending (some p) = elim p.completion [
    | approval_completion proposal policy expires_at ↦
        map_err governance_error (validate_proposal x.codec x.proposal_value proposal)
    | _ ↦ ok tt
  ]

  -- `MachineSnapshot::validate_no_secrets`
  unfoldable pub validate_no_secrets : MachineSnapshot → Result MachineError (Unit {0})
  unfolding check_values check_frames
  validate_no_secrets s = do
    map_err authority_error (validate_ledger x.codec x.proposal_value s.authority)
    check_pending s.pending_effect
    check_values s.current_state
    check_values s.pending_state
    check_frames s.frames

  module _ (runtime_version : String) (snapshot_value : MachineSnapshot → Result String Json) where
    -- `MachineSnapshot::compute_hash`
    unfoldable pub compute_hash : MachineSnapshot → Result MachineError String
    compute_hash s =
        map_err canonical_error
          (canonical_sha256 x.codec (snapshot_value (record s { snapshot_hash = "" })))

    abbrev sealed :
        MachineSnapshot
        → Result MachineError String
        → Result MachineError (Unit {0}) × MachineSnapshot
    sealed s (ok hash) = (ok tt, record s { snapshot_hash = hash })
    sealed s (err e) = (err e, record s { snapshot_hash = "" })

    -- `MachineSnapshot::seal`
    unfoldable pub seal : MachineSnapshot → Result MachineError (Unit {0}) × MachineSnapshot
    unfolding compute_hash
    seal s = sealed s (compute_hash (record s { snapshot_hash = "" }))

    -- `Machine::snapshot`
    unfoldable pub snapshot : Machine → Result MachineError MachineSnapshot
    unfolding validate_no_secrets seal
    snapshot m = do validate_no_secrets m.snapshot; (seal m.snapshot).0; ok (seal m.snapshot).1

    -- the checks that `restore` and `from_json` share
    unfoldable pub check_snapshot : MachineSnapshot → Result MachineError (Unit {0})
    check_snapshot s = do
      ensure (s.schema_version == 1) snapshot_schema_mismatch
      ensure (str_eq s.runtime_version runtime_version) runtime_version_mismatch
      validate_no_secrets s
      hash ← compute_hash s
      ensure (str_eq hash s.snapshot_hash) snapshot_hash_mismatch

    -- `Machine::restore`
    unfoldable pub restore : Program → MachineSnapshot → Result MachineError Machine
    unfolding check_snapshot
    restore program s = do
      check_snapshot s
      ensure (str_eq program.program_hash s.program_hash) program_mismatch
      ok (record {
        program = program;
        snapshot = s;
        outcome = none;
        failure = none;
        audit_events = [];
      })

    module _ (snapshot_text : MachineSnapshot → Result String String)
        (snapshot_of_text : String → Result String MachineSnapshot) where
      -- `MachineSnapshot::to_json`
      unfoldable pub to_json : MachineSnapshot → Result MachineError String
      unfolding validate_no_secrets
      to_json s = do validate_no_secrets s; map_err serialization_failure (snapshot_text s)

      -- `MachineSnapshot::from_json`
      unfoldable pub from_json : String → Result MachineError MachineSnapshot
      unfolding check_snapshot
      from_json json = do
        s ← map_err serialization_failure (snapshot_of_text json)
        check_snapshot s
        ok s
