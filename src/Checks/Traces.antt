-- ===== src/Checks/Traces.antt =====
-- Runs of the trace of trace.rs.
use aster_lang.Base.{◌≡◌, refl, true, [], ◌∷◌, arith, inl, inr}
use aster_lang.Base.Outcome.{ok}
use aster_lang.Base.Text.{decimal}
use aster_lang.Json.{null, boolean, canonicalize, canonical_json, canonical_sha256}
use aster_lang.Trace.{
  TraceEntry, Trace, new_trace, content_hash, append, checkpoint, verify, rewind_to, head_hash,
}
use aster_lang.Trace.Chain.{Extends, verify-append, rewind_to-checkpoint}
use aster_lang.Trace.Binding.{NoCollision, checkpoint-injective}
use aster_lang.Checks.{printer, entry_json, show}

abbrev entry_0 : TraceEntry
entry_0 = record {
  schema_version = 1;
  run_id = "run-1";
  sequence = 0;
  kind = "started";
  payload = boolean true;
  previous_entry_hash = "";
  entry_hash =
      "{hash:\"\",kind:\"started\",payload:true,previous:\"\",run_id:\"run-1\",sequence:0,}";
}

abbrev entry_1 : TraceEntry
entry_1 = record {
  schema_version = 1;
  run_id = "run-1";
  sequence = 1;
  kind = "effect";
  payload = null;
  previous_entry_hash = entry_0.entry_hash;
  entry_hash =
      "{hash:\"\",kind:\"effect\",payload:null,previous:\"{hash:\"\",kind:\"started\",payload:true,previous:\"\",run_id:\"run-1\",sequence:0,}\",run_id:\"run-1\",sequence:1,}";
}

abbrev one : Trace
one = record { run_id = "run-1"; entries = entry_0 ∷ [] }

abbrev two : Trace
two = record { run_id = "run-1"; entries = entry_0 ∷ entry_1 ∷ [] }

append_0 : append printer entry_json "started" (boolean true) (new_trace "run-1") ≡ (ok tt, one)
unfolding append content_hash canonical_sha256 canonical_json canonicalize show decimal head_hash
append_0 = refl

append_1 : append printer entry_json "effect" null one ≡ (ok tt, two)
unfolding append content_hash canonical_sha256 canonical_json canonicalize show decimal head_hash
append_1 = refl

verify_new : verify printer entry_json (new_trace "run-1") ≡ ok tt
unfolding verify
verify_new = refl

one_verified : verify printer entry_json one ≡ ok tt
one_verified =
    verify-append printer entry_json "started" (boolean true) (new_trace "run-1") one verify_new
      append_0

verify-append_example : verify printer entry_json two ≡ ok tt
verify-append_example = verify-append printer entry_json "effect" null one two one_verified append_1

one_marked : checkpoint printer entry_json one ≡ ok (1, entry_0.entry_hash)
unfolding checkpoint head_hash
one_marked = refl

rewind_to-checkpoint_example : rewind_to printer entry_json 1 entry_0.entry_hash two ≡ (ok tt, one)
rewind_to-checkpoint_example =
    rewind_to-checkpoint printer entry_json one two 1 entry_0.entry_hash one_verified one_marked
      (Extends.appends "effect" null Extends.here append_1)

-- two entries that are one entry do not collide
no_collision : NoCollision printer entry_json one.entries one.entries
no_collision e f (inl p) (inl q) h = cc
no_collision e f (inr p) q h = elim p [ ]
no_collision e f (inl p) (inr q) h = elim q [ ]

checkpoint-injective_example : one.entries ≡ one.entries
checkpoint-injective_example =
    checkpoint-injective printer entry_json one one no_collision one_verified one_verified refl
      (omega arith)
