-- ===== src/Diagnostic/Render.antt =====
-- `Diagnostic::render_human` of crates/aster-diagnostics/src/diagnostic.rs.
use Prim.Native.Char.{code}
use aster_lang.Base.{
  ℕ, zero, suc, ◌-◌, String, Bool, false, ◌&&◌, Option, none, some, List, [], ◌∷◌, ◌==◌,
  if◌then◌else◌,
}
use aster_lang.Base.Text.{◌+++◌, decimal}
use aster_lang.Diagnostic.{Diagnostic, Severity, error_severity, warning}

abbrev pub severity_name : Severity → String
severity_name error_severity = "error"
severity_name warning = "warning"

abbrev pub at_newline : String → Bool
at_newline String.[] = false
at_newline (String.◌∷◌ c s) = code c == b'\n'

-- The first of `str::lines`: a carriage return is cut off where a newline follows it.
unfoldable pub first_line : String → String
first_line String.[] = ""
first_line (String.◌∷◌ c s) =
    let more = String.◌∷◌ c (first_line s) in
    if code c == b'\n' then "" else if code c == b'\r' && at_newline s then "" else more

-- the text after the first line
unfoldable pub after_line : String → String
after_line String.[] = ""
after_line (String.◌∷◌ c s) = let more = after_line s in if code c == b'\n' then s else more

-- `lines().nth(n)`, empty where there is none
unfoldable pub nth_line : ℕ → String → String
unfolding first_line after_line
nth_line zero s = first_line s
nth_line (suc n) s = nth_line n (after_line s)

-- a line for each of the texts
unfoldable pub tagged : String → List String → String
tagged tag [] = ""
tagged tag (text ∷ texts) = tag +++ (text +++ ("\n" +++ tagged tag texts))

abbrev pub help_line : Option String → String
help_line none = ""
help_line (some help) = "help: " +++ (help +++ "\n")

unfoldable pub render_human : Diagnostic → String → String
unfolding nth_line tagged
render_human d source =
    let line = decimal d.primary_span.line in
    severity_name d.severity
    +++ "["
    +++ d.code
    +++ "]: "
    +++ d.message
    +++ "\n --> "
    +++ d.primary_span.file
    +++ ":"
    +++ line
    +++ ":"
    +++ decimal d.primary_span.column
    +++ "\n"
    +++ line
    +++ " | "
    +++ nth_line (d.primary_span.line - 1) source
    +++ "\n"
    +++ tagged "label: " d.labels
    +++ tagged "note: " d.notes
    +++ help_line d.help
