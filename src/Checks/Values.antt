-- ===== src/Checks/Values.antt =====
-- Values that leave the runtime as JSON, and dates of the calendar.
use aster_lang.Base.{◌≡◌, refl, false, some, arith}
use aster_lang.Base.Int.{pos, ◌+ℤ◌, ◌-ℤ◌, ◌*ℤ◌, checked_add, checked_mul}
use aster_lang.Base.Outcome.{ok}
use aster_lang.Base.Text.{decimal, bytes}
use aster_lang.Json.{Json, string, number, array, nil, cons}
use aster_lang.Value
use aster_lang.Value.{RuntimeValue, contains_secret}
use aster_lang.Instant.{days_in_month, days_from_civil, civil_from_days, add_seconds}
use aster_lang.Instant.Civil.{civil_from_days-days_from_civil}
use aster_lang.Machine.Decode.{runtime_to_json}
use aster_lang.Machine.Decode.Opaque.{contains_permit, runtime_to_json-public}
use aster_lang.Checks.{externals}

-- a checked list of a text and of an untrusted number
abbrev answer : RuntimeValue
answer =
    RuntimeValue.checked
      (RuntimeValue.list (
        Value.Values.cons (RuntimeValue.text "ok") (
          Value.Values.cons (RuntimeValue.untrusted (RuntimeValue.int (pos 3)) "model")
            Value.Values.nil)))
      "request"

abbrev answer_json : Json
answer_json = array (cons (string "ok") (cons (number "3") nil))

answer-public : runtime_to_json externals answer ≡ ok answer_json
unfolding runtime_to_json decimal
answer-public = refl

runtime_to_json-public_example : (contains_secret answer ≡ false) × (contains_permit answer ≡ false)
runtime_to_json-public_example = runtime_to_json-public externals answer answer_json answer-public

leap_february : days_in_month 2000 2 ≡ some 29
unfolding days_in_month
leap_february = refl

civil_from_days-days_from_civil_example :
    civil_from_days (days_from_civil 2000 2 29) ≡ (pos 2000, 2, 29)
civil_from_days-days_from_civil_example =
    civil_from_days-days_from_civil 2000 2 29 29 (omega arith) leap_february (omega arith)
      (omega arith)

-- the last seconds of a year
add_seconds_rolls : add_seconds "2026-12-31T23:59:58Z" (pos 3) ≡ ok "2027-01-01T00:00:01Z"
unfolding add_seconds decimal bytes checked_mul checked_add ◌+ℤ◌ ◌-ℤ◌ ◌*ℤ◌
add_seconds_rolls = refl
