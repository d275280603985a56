-- ===== src/Machine/Snapshot/Restored.antt =====
-- What a snapshot of machine.rs that is saved, or taken back, is known to be.
use aster_lang.Base.{String, ◌≡◌, false, none, List, [], ◌∷◌, arith, eq_iff}
use aster_lang.Base.Outcome.{Result, ok, Result-cases}
use aster_lang.Base.{inl, inr}
use aster_lang.Base.Maps.{BTreeMap, string_ord}
use aster_lang.Json.{Json}
use aster_lang.Authority.{validate_ledger}
use aster_lang.Ir.{Program}
use aster_lang.Value.{RuntimeValue, contains_secret, any_value, snapshot_values}
use aster_lang.Machine.Decode.{Externals}
use aster_lang.Machine.State.{Machine, MachineSnapshot, FrameSnapshot}
use aster_lang.Machine.Snapshot.{
  check_values, check_frame, check_frames, validate_no_secrets, compute_hash, seal, snapshot,
  check_snapshot, restore,
}

-- The machine that takes a snapshot up.
abbrev pub resumed : Program → MachineSnapshot → Machine
resumed program s = record {
  program = program;
  snapshot = s;
  outcome = none;
  failure = none;
  audit_events = [];
}

-- No local of the frames holds a secret.
abbrev pub HasCleanLocals : List FrameSnapshot → Type 0
HasCleanLocals [] = Unit {0}
HasCleanLocals (f ∷ fs) = (any_value contains_secret f.locals ≡ false) × HasCleanLocals fs

module _ (x : Externals) where
  check_values-clean :
      (m : BTreeMap String RuntimeValue)
      → check_values x m ≡ ok tt
      → any_value contains_secret m ≡ false
  unfolding check_values snapshot_values
  check_values-clean m h = ground arith

  check_frames-HasCleanLocals :
      (fs : List FrameSnapshot) → check_frames x fs ≡ ok tt → HasCleanLocals fs
  unfolding check_frames check_frame
  check_frames-HasCleanLocals [] h = tt
  check_frames-HasCleanLocals (f ∷ fs) h =
      (check_values-clean f.locals (ground arith), check_frames-HasCleanLocals fs (ground arith))

  module _ (runtime_version : String) (snapshot_value : MachineSnapshot → Result String Json) where
    -- What `restore` and `from_json` find in a snapshot that they take.
    pub record Sound (s : MachineSnapshot) : Type 0 where
      pub same_schema : s.schema_version ≡ 1
      pub same_version : s.runtime_version ≡ runtime_version
      pub genuine : compute_hash x runtime_version snapshot_value s ≡ ok s.snapshot_hash
      pub permits : validate_ledger x.codec x.proposal_value s.authority ≡ ok tt
      pub clean_state : any_value contains_secret s.current_state ≡ false
      pub clean_pending : any_value contains_secret s.pending_state ≡ false
      pub clean_locals : HasCleanLocals s.frames

    check_snapshot-Sound :
        (s : MachineSnapshot) → check_snapshot x runtime_version snapshot_value s ≡ ok tt → Sound s
    unfolding check_snapshot validate_no_secrets
    check_snapshot-Sound s h =
        elim (Result-cases (compute_hash x runtime_version snapshot_value s)) [
          | inr (why, e) ↦ absurd (ground arith)
          | inl (hash, e) ↦ record {
            same_schema = ground arith;
            same_version = ground (arith, eq_iff s.runtime_version runtime_version);
            genuine = ground (arith, eq_iff hash s.snapshot_hash);
            permits = ground arith;
            clean_state = check_values-clean s.current_state (ground arith);
            clean_pending = check_values-clean s.pending_state (ground arith);
            clean_locals = check_frames-HasCleanLocals s.frames (ground arith);
          }
        ]

    -- A snapshot that `restore` takes is of this schema and version and of the given program, its
    -- hash is that of its content, its permits are those of a valid ledger, and no secret is in
    -- its state, its pending state or a local; the machine has it unchanged.
    pub restore-Sound :
        (program : Program) (s : MachineSnapshot) (m : Machine)
        → restore x runtime_version snapshot_value program s ≡ ok m
        → Sound s × (program.program_hash ≡ s.program_hash) × (m ≡ resumed program s)
    unfolding restore
    restore-Sound program s m h = (
      check_snapshot-Sound s (ground arith),
      ground (arith, eq_iff program.program_hash s.program_hash),
      ground arith,
    )

    -- what `snapshot` gives
    pub snapshot-eq-ok :
        (m : Machine) (s : MachineSnapshot)
        → snapshot x runtime_version snapshot_value m ≡ ok s
        → (hash : String) × (compute_hash x runtime_version snapshot_value m.snapshot ≡ ok hash)
          × (validate_no_secrets x m.snapshot ≡ ok tt)
          × (s ≡ record m.snapshot { snapshot_hash = hash })
    unfolding snapshot seal compute_hash
    snapshot-eq-ok m s h =
        elim (Result-cases (compute_hash x runtime_version snapshot_value m.snapshot)) [
          | inr (why, e) ↦ absurd (ground arith)
          | inl (hash, e) ↦ (hash, e, ground arith, ground arith)
        ]

    module _ (m : Machine) (s : MachineSnapshot)
        (taken : snapshot x runtime_version snapshot_value m ≡ ok s)
        (schema : m.snapshot.schema_version ≡ 1)
        (version : m.snapshot.runtime_version ≡ runtime_version) where
      check-snapshot : check_snapshot x runtime_version snapshot_value s ≡ ok tt
      unfolding check_snapshot compute_hash validate_no_secrets
      check-snapshot =
          let (hash, done, clean, at) = snapshot-eq-ok m s taken in
          rw at (
            ground (
              arith,
              eq_iff m.snapshot.runtime_version runtime_version,
              eq_iff hash hash,
              done,
              clean,
            ))

      -- A snapshot of a machine of this schema and version can be restored for the machine's
      -- program; the machine that comes back has that snapshot, which is the machine's own but
      -- for the hash.
      pub restore-snapshot :
          m.program.program_hash ≡ m.snapshot.program_hash
          → (restore x runtime_version snapshot_value m.program s ≡ ok (resumed m.program s))
            × (s ≡ record m.snapshot { snapshot_hash = s.snapshot_hash })
      unfolding restore
      restore-snapshot same =
          let (hash, done, clean, at) = snapshot-eq-ok m s taken in
          (
            ground (arith, check-snapshot, at, eq_iff m.program.program_hash s.program_hash),
            ground arith,
          )
