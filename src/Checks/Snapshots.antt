-- ===== src/Checks/Snapshots.antt =====
-- A machine saved and taken back.
use aster_lang.Base.{String, ◌≡◌, refl}
use aster_lang.Base.Maps.{string_ord, nat_ord, lookup, insert}
use aster_lang.Base.Outcome.{Result, ok}
use aster_lang.Base.Text.{join_nul, decimal}
use aster_lang.Json.{
  Json, string, object, field, end, canonicalize, canonical_json, canonical_sha256, collect, put,
}
use aster_lang.Authority.{
  validate_ledger, any_entry, validate_proposal, content_hash, computed_id, material,
}
use aster_lang.Value.{contains_secret, any_value, snapshot_values, validate_governance}
use aster_lang.Machine.State.{MachineSnapshot}
use aster_lang.Machine.Decode.{collect_map}
use aster_lang.Machine.Snapshot.{
  slot_texts, check_governance, check_values, check_frame, check_frames, validate_no_secrets,
  compute_hash, seal, snapshot, check_snapshot, restore,
}
use aster_lang.Machine.Snapshot.Restored.{resumed, Sound, restore-Sound, restore-snapshot}
use aster_lang.Checks.{externals, show, map_fields}
use aster_lang.Checks.Machines.{machine_at, mail_program}

abbrev snapshot_json : MachineSnapshot → Result String Json
snapshot_json s = ok (
    object (
      field "event_id" (string s.event_id) (
        field "program_hash" (string s.program_hash)
          (field "snapshot_hash" (string s.snapshot_hash) end))))

abbrev saved : MachineSnapshot
saved = record (machine_at 0).snapshot {
  snapshot_hash = "{event_id:\"e1\",program_hash:\"p\",snapshot_hash:\"\",}";
}

saves : snapshot externals "0.2.0" snapshot_json (machine_at 0) ≡ ok saved
unfolding snapshot seal compute_hash validate_no_secrets check_frames check_frame check_values
    check_governance snapshot_values any_value contains_secret validate_governance validate_ledger
    any_entry validate_proposal content_hash computed_id material join_nul decimal lookup insert
    canonicalize canonical_json canonical_sha256 collect put show map_fields slot_texts collect_map
saves = refl

restore-snapshot_example :
    (restore externals "0.2.0" snapshot_json mail_program saved ≡ ok (resumed mail_program saved))
    × (saved ≡ record (machine_at 0).snapshot { snapshot_hash = saved.snapshot_hash })
restore-snapshot_example =
    restore-snapshot externals "0.2.0" snapshot_json (machine_at 0) saved saves refl refl refl

restores :
    restore externals "0.2.0" snapshot_json mail_program saved ≡ ok (resumed mail_program saved)
unfolding restore check_snapshot compute_hash validate_no_secrets check_frames check_frame
    check_values check_governance snapshot_values any_value contains_secret validate_governance
    validate_ledger any_entry validate_proposal content_hash computed_id material join_nul decimal
    lookup insert canonicalize canonical_json canonical_sha256 collect put show map_fields
    slot_texts collect_map
restores = refl

restore-Sound_example :
    Sound externals "0.2.0" snapshot_json saved
    × (mail_program.program_hash ≡ saved.program_hash)
    × (resumed mail_program saved ≡ resumed mail_program saved)
restore-Sound_example =
    restore-Sound externals "0.2.0" snapshot_json mail_program saved (resumed mail_program saved)
      restores
