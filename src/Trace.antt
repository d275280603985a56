-- ===== src/Trace.antt =====
-- crates/aster-runtime/src/trace.rs: the append-only, hash-chained trace. Hashing an entry goes
-- through `serde_json::to_value`, which comes in as `entry_value`. JSON Lines are not modelled.
pub mod Chain
pub mod Binding
use aster_lang.Base.{
  ℕ, zero, suc, ◌+◌, ◌-◌, String, Bool, not, ◌||◌, Option, none, some, List, [], ◌∷◌, ◌++◌, leb,
  ltb, u64_max, str_eq, ◌==◌, if◌then◌else◌, length, get_elem?, take,
}
use aster_lang.Base.Outcome.{Result, ok, err, and_then, map_err, Exec}
use aster_lang.Json.{Json, CanonicalError, Codec, canonical_sha256}

pub record TraceEntry : Type 0 where
  pub schema_version : ℕ
  pub run_id : String
  pub sequence : ℕ
  pub kind : String
  pub payload : Json
  pub previous_entry_hash : String
  pub entry_hash : String

pub record Trace : Type 0 where
  pub run_id : String
  pub entries : List TraceEntry

pub data TraceError : Type 0 where
  canonical : CanonicalError → TraceError
  too_long : TraceError
  metadata_mismatch link_mismatch hash_mismatch malformed_line : ℕ → TraceError
  empty checkpoint_mismatch : TraceError

-- `u64::try_from` of a length or an index
abbrev pub to_u64 : ℕ → Result TraceError ℕ
to_u64 n = if leb n u64_max then ok n else err too_long

-- `last().map_or_else(String::new, ..)`
unfoldable pub head_hash : String → List TraceEntry → String
head_hash start [] = start
head_hash start (e ∷ es) = head_hash e.entry_hash es

-- `Trace::new`
abbrev pub new_trace : String → Trace
new_trace run_id = record { run_id = run_id; entries = [] }

-- an entry with its own hash left out
abbrev pub content : TraceEntry → TraceEntry
content e = record e { entry_hash = "" }

module _ (codec : Codec) (entry_value : TraceEntry → Result String Json) where
  unfoldable pub content_hash : TraceEntry → Result CanonicalError String
  content_hash e = canonical_sha256 codec (entry_value (content e))

  abbrev pushed :
      Trace → TraceEntry → Result CanonicalError String → Result TraceError (Unit {0}) × Trace
  pushed t entry (ok hash) =
      (ok tt, record t { entries = t.entries ++ record entry { entry_hash = hash } ∷ [] })
  pushed t entry (err e) = (err (canonical e), t)

  unfoldable pub append : String → Json → Exec Trace TraceError (Unit {0})
  append kind payload t = elim (to_u64 (length t.entries)) [
    | err e ↦ (err e, t)
    | ok sequence ↦
        let entry : TraceEntry = record {
          schema_version = 1;
          run_id = t.run_id;
          sequence = sequence;
          kind = kind;
          payload = payload;
          previous_entry_hash = head_hash "" t.entries;
          entry_hash = "";
        } in
        pushed t entry (content_hash entry)
  ]

  unfoldable pub checkpoint : Trace → Result TraceError (ℕ × String)
  checkpoint t = and_then (to_u64 (length t.entries)) (λ n. ok (n, head_hash "" t.entries))

  -- the checks of `verify` on the entry at an index, given the hash of the entry before it
  unfoldable pub check_entry : String → ℕ → String → TraceEntry → Result TraceError (Unit {0})
  check_entry run_id index previous entry = and_then (to_u64 index) λ sequence.
      if not (entry.schema_version == 1)
        || not (str_eq entry.run_id run_id)
        || not (entry.sequence == sequence)
      then err (metadata_mismatch sequence)
      else if not (str_eq entry.previous_entry_hash previous)
      then err (link_mismatch sequence)
      else and_then (map_err canonical (content_hash entry))
          λ hash. if str_eq hash entry.entry_hash then ok tt else err (hash_mismatch sequence)

  -- the loop of `verify`
  unfoldable pub verify_from : String → ℕ → String → List TraceEntry → Result TraceError (Unit {0})
  verify_from run_id index previous [] = ok tt
  verify_from run_id index previous (entry ∷ rest) =
      let later = verify_from run_id (suc index) entry.entry_hash rest in
      and_then (check_entry run_id index previous entry) (λ _. later)

  unfoldable pub verify : Trace → Result TraceError (Unit {0})
  unfolding verify_from
  verify t = verify_from t.run_id 0 "" t.entries

  abbrev hash_at : List TraceEntry → ℕ → String
  hash_at entries zero = ""
  hash_at entries (suc i) = elim (get_elem? entries i) [ none ↦ "" | some e ↦ e.entry_hash ]

  unfoldable pub rewind_to : ℕ → String → Exec Trace TraceError (Unit {0})
  unfolding verify
  rewind_to position hash t = elim (verify t) [
    | err e ↦ (err e, t)
    | ok _ ↦
        if ltb (length t.entries) position
        then (err checkpoint_mismatch, t)
        else if not (str_eq (hash_at t.entries position) hash)
        then (err checkpoint_mismatch, t)
        else (ok tt, record t { entries = take position t.entries })
  ]
