-- ===== src/Checks.antt =====
-- Concrete instances of what the crates take from others, and the data of the tests below: a
-- plain JSON printer for `serde_json`, and a hash that keeps the text it is given. The modules
-- below apply the theorems to them. Not about a file of the repository.
pub mod Budgets
pub mod Permits
pub mod Traces
pub mod Values
pub mod Fixtures
pub mod Machines
pub mod Starts
pub mod Snapshots
pub mod Sessions
pub mod Recordings
pub mod Lexing
use aster_lang.Base.{
  ℕ, String, Bool, true, false, Option, none, some, List, [], ◌∷◌, if◌then◌else◌, str_eq,
}
use aster_lang.Base.Int.{ℤ, pos, negsuc}
use aster_lang.Base.Outcome.{Result, ok}
use aster_lang.Base.Text.{◌+++◌, decimal}
use aster_lang.Json.{
  Json, Items, Fields, null, boolean, number, string, array, object, nil, cons, end, field, Codec,
}
use aster_lang.Authority.{Intent, Proposal}
use aster_lang.Trace.{TraceEntry}
use aster_lang.Machine.Decode.{Externals}

unfoldable mutual
  pub show : Json → String
  show null = "null"
  show (boolean true) = "true"
  show (boolean false) = "false"
  show (number n) = n
  show (string s) = "\"" +++ s +++ "\""
  show (array vs) = "[" +++ show_items vs +++ "]"
  show (object fs) = "{" +++ show_fields fs +++ "}"

  pub show_items : Items → String
  show_items nil = ""
  show_items (cons v vs) = show v +++ "," +++ show_items vs

  pub show_fields : Fields → String
  show_fields end = ""
  show_fields (field k v fs) = k +++ ":" +++ show v +++ "," +++ show_fields fs

abbrev pub printer : Codec
printer = record { to_string = λ v. ok (show v); sha256_hex = λ s. s }

unfoldable pub map_fields : List (String × Json) → Fields
map_fields [] = end
map_fields ((k, v) ∷ rest) = field k v (map_fields rest)

abbrev pub intent_json : Intent → Json
intent_json i = object (
    field "purpose" (string i.purpose) (
      field "fields" (object (map_fields i.fields)) (field "expires_at" (string i.expires_at) end)))

abbrev pub proposal_json : Proposal → Result String Json
proposal_json p = ok (
    object (
      field "action" (string p.action) (
        field "arguments" (object (map_fields p.arguments)) (
          field "intent" (intent_json p.intent)
            (field "key" (string p.idempotency_key) (field "digest" (string p.digest) end))))))

abbrev pub entry_json : TraceEntry → Result String Json
entry_json e = ok (
    object (
      field "run_id" (string e.run_id) (
        field "sequence" (number (decimal e.sequence)) (
          field "kind" (string e.kind) (
            field "payload" e.payload (
              field "previous" (string e.previous_entry_hash)
                (field "hash" (string e.entry_hash) end)))))))

abbrev pub int_text : ℤ → String
int_text (pos n) = decimal n
int_text (negsuc n) = "-" +++ decimal (ℕ.suc n)

-- reads the integers of the tests
abbrev pub small_int : String → Option ℤ
small_int s = if str_eq s "1" then some (pos 1) else if str_eq s "3" then some (pos 3) else none

abbrev pub externals : Externals
externals = record {
  codec = printer;
  proposal_value = proposal_json;
  intent_value = λ i. ok (intent_json i);
  type_value = λ t. string "type";
  values_text = λ vs. ok "values";
  as_i64 = small_int;
  from_i64 = int_text;
}
