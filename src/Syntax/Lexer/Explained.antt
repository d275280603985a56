-- ===== src/Syntax/Lexer/Explained.antt =====
-- The diagnostics of lexer.rs, and what `explain` of registry.rs has on their codes.
use Prim.Native.Char.{Char, code}
use mathlib.Core.Option.{some-injective}
use aster_lang.Base.{
  ℕ, zero, suc, ◌+◌, String, ◌≡◌, subst, inl, inr, Bool, true, false, ◌&&◌, Option, none, some,
  List, [], ◌∷◌, ◌++◌, Bool-cases, ltb, ◌==◌, if◌then◌else◌,
}
use aster_lang.Base.Outcome.{Result, ok, err}
use aster_lang.Diagnostic.{Diagnostic, KnownDiagnosticCode}
use aster_lang.Diagnostic.Explain.{Explanation, explain, explain_known}
use aster_lang.Syntax.Source.{SourceFile, byte_length}
use aster_lang.Syntax.Token.{Token, Symbol}
use aster_lang.Syntax.Loops.{
  is_space, is_digit, is_identifier_start, begins, begins_with, is_simple_escape, count_while,
  is_hexdigit, comment_body, block_body, take_chars, is_before, insert_diagnostic, sort_diagnostics,
}
use aster_lang.Syntax.Lexer.{
  Lexer, Scan, Pushed, token, errors, StringBody, fault, escape, string_look, string_body,
  literal_of, string_scan, lex_whitespace, lex_line_comment, lex_block_comment, lex_block_string,
  lex_string, begins_name, lex_model_alias, lex_identifier, integer_of, lex_integer, single_scan,
  pair_scan, lex_symbol, lex_at, push, advance, result_of, run, begin, lex,
}
use aster_lang.Syntax.Lexer.Lossless.{Accounts, lex-Accounts}

-- `explain` has an explanation of the diagnostic's code.
abbrev pub IsExplained : Diagnostic → Type 0
IsExplained d = (e : Explanation) × (explain d.code ≡ some e) × (e.code ≡ d.code)

abbrev pub AllExplained : List Diagnostic → Type 0
AllExplained [] = Unit {0}
AllExplained (d ∷ ds) = IsExplained d × AllExplained ds

abbrev PushedExplained : Pushed → Type 0
PushedExplained (token kind) = Unit {0}
PushedExplained (errors d ds) = IsExplained d × AllExplained ds

-- What the lexer ends with: tokens, or diagnostics, one at least, all of them explained.
abbrev pub IsVerdict : Result (List Diagnostic) (List Token) → Type 0
IsVerdict (ok tokens) = Unit {0}
IsVerdict (err ds) = ¬ (ds ≡ []) × AllExplained ds

append-AllExplained :
    (ds es : List Diagnostic) → AllExplained ds → AllExplained es → AllExplained (ds ++ es)
append-AllExplained [] es p q = q
append-AllExplained (d ∷ ds) es p q = (p.0, append-AllExplained ds es p.1 q)

insert-AllExplained :
    (d : Diagnostic) (ds : List Diagnostic)
    → IsExplained d
    → AllExplained ds
    → AllExplained (insert_diagnostic d ds)
unfolding insert_diagnostic
insert-AllExplained d [] p q = (p, q)
insert-AllExplained d (e ∷ ds) p q = elim (Bool-cases (is_before e d)) [
  | inl before ↦ rw before (q.0, insert-AllExplained d ds p q.1)
  | inr after ↦ rw after (p, q)
]

sort-AllExplained : (ds : List Diagnostic) → AllExplained ds → AllExplained (sort_diagnostics ds)
unfolding sort_diagnostics
sort-AllExplained [] p = tt
sort-AllExplained (d ∷ ds) p =
    insert-AllExplained d (sort_diagnostics ds) p.0 (sort-AllExplained ds p.1)

module _ (source : SourceFile) (read_literal : String → Option String) where
  fault-IsExplained :
      (k : KnownDiagnosticCode) (message : String) (start end : ℕ) (help : String)
      → IsExplained (fault source read_literal k message start end help)
  unfolding fault
  fault-IsExplained k message start end help = explain_known k

  either :
      (b : Bool) (x y : Scan)
      → PushedExplained x.pushed
      → PushedExplained y.pushed
      → PushedExplained (if b then x else y).pushed
  either true x y p q = p
  either false x y p q = q

  escape-AllExplained :
      (start : ℕ) (s : String) → AllExplained (escape source read_literal start s).1
  escape-AllExplained start String.[] = tt
  escape-AllExplained start (String.◌∷◌ c s) = elim (Bool-cases (is_simple_escape (code c))) [
    | inl simple ↦ rw simple tt
    | inr other ↦ rw other (elim (Bool-cases (code c == b'u')) [
      | inl u ↦ rw u (elim (Bool-cases (count_while is_hexdigit 4 s == 4)) [
        | inl four ↦ rw four tt
        | inr fewer ↦ rw fewer (fault-IsExplained _ _ _ _ _, tt)
      ])
      | inr no_u ↦ rw no_u (fault-IsExplained _ _ _ _ _, tt)
    ])
  ]

  look-AllExplained :
      (start c : ℕ) (s : String) → AllExplained (string_look source read_literal start c s).1
  look-AllExplained start c s = elim (Bool-cases (c == b'\\')) [
    | inl backslash ↦ rw backslash (escape-AllExplained start s)
    | inr other ↦ rw other (elim (Bool-cases (ltb c 0x20)) [
      | inl control ↦ rw control (fault-IsExplained _ _ _ _ _, tt)
      | inr plain ↦ rw plain tt
    ])
  ]

  body-AllExplained :
      (s : String) (start skip : ℕ)
      → AllExplained (string_body source read_literal s start skip).faults
  unfolding string_body
  body-AllExplained String.[] start skip = tt
  body-AllExplained (String.◌∷◌ c s) start (suc skip) = body-AllExplained s _ skip
  body-AllExplained (String.◌∷◌ c s) start zero = elim (Bool-cases (code c == b'"')) [
    | inl closes ↦ rw (closes, string_body) tt
    | inr goes_on ↦
        rw (goes_on, string_body)
          (append-AllExplained _ _ (look-AllExplained start (code c) s) (body-AllExplained s _ _))
  ]

  literal-Explained :
      (start : ℕ) (text rest : String) (o : Option String)
      → PushedExplained (literal_of source read_literal start text rest o).pushed
  literal-Explained start text rest (some v) = tt
  literal-Explained start text rest none = (fault-IsExplained _ _ _ _ _, tt)

  string-Explained :
      (start : ℕ) (c : Char) (b : StringBody) (faults : List Diagnostic)
      → AllExplained faults
      → PushedExplained (string_scan source read_literal start c b faults).pushed
  string-Explained start c b [] p =
      either b.terminated _ _ (literal-Explained start _ b.rest _) (fault-IsExplained _ _ _ _ _, tt)
  string-Explained start c b (d ∷ faults) p =
      either b.terminated _ _ p
        (p.0, append-AllExplained faults _ p.1 (fault-IsExplained _ _ _ _ _, tt))

  integer-Explained :
      (start : ℕ) (text rest : String) (o : Option ℕ)
      → PushedExplained (integer_of source read_literal start text rest o).pushed
  integer-Explained start text rest (some n) = tt
  integer-Explained start text rest none = (fault-IsExplained _ _ _ _ _, tt)

  single-Explained :
      (start : ℕ) (c : Char) (s : String) (o : Option Symbol)
      → PushedExplained (single_scan source read_literal start c s o).pushed
  single-Explained start c s (some k) = tt
  single-Explained start c s none = (fault-IsExplained _ _ _ _ _, tt)

  pair-Explained :
      (start : ℕ) (c : Char) (s : String) (o : Option Symbol)
      → PushedExplained (pair_scan source read_literal start c s o).pushed
  pair-Explained start c s (some k) = tt
  pair-Explained start c s none = single-Explained start c s _

  lex_at-Explained :
      (start : ℕ) (c : Char) (s : String)
      → PushedExplained (lex_at source read_literal start c s).pushed
  unfolding lex_at lex_whitespace lex_line_comment lex_block_comment lex_block_string lex_string
      lex_model_alias lex_identifier lex_integer lex_symbol
  lex_at-Explained start c s = either (is_space (code c)) _ _ tt (
      either (code c == b'/' && begins b'/' s) _ _ tt (
        either (code c == b'/' && begins b'*' s) _ _
          (either (comment_body (take_chars 1 s).1 1).found _ _ tt
            (fault-IsExplained _ _ _ _ _, tt))
          (either (code c == b'"' && begins_with b'"' b'"' s) _ _
            (either (block_body (take_chars 2 s).1).found _ _ tt (fault-IsExplained _ _ _ _ _, tt))
            (either (code c == b'"') _ _
              (string-Explained start c (string_body source read_literal s (start + 1) 0) _
                (body-AllExplained s (start + 1) 0))
              (either (code c == b'@') _ _
                (either (begins_name source read_literal s) _ _ tt
                  (fault-IsExplained _ _ _ _ _, tt))
                (either (is_identifier_start (code c)) _ _ tt (
                  either (is_digit (code c)) _ _ (integer-Explained start _ _ _)
                    (pair-Explained start c s _))))))))

  push-AllExplained :
      (l : Lexer) (n : ℕ) (rest : String) (p : Pushed)
      → AllExplained l.diagnostics
      → PushedExplained p
      → AllExplained (push source read_literal l n rest p).diagnostics
  push-AllExplained l n rest (token kind) h q = h
  push-AllExplained l n rest (errors d ds) h q = append-AllExplained l.diagnostics (d ∷ ds) h q

  abbrev Faults : Result (List Diagnostic) (List Token) → Type 0
  Faults (ok tokens) = Unit {0}
  Faults (err ds) = AllExplained ds

  result_of-Faults :
      (tokens : List Token) (ds : List Diagnostic)
      → AllExplained ds
      → Faults (result_of source read_literal tokens ds)
  result_of-Faults tokens [] h = tt
  result_of-Faults tokens (d ∷ ds) h = sort-AllExplained (d ∷ ds) h

  run-Faults :
      (fuel : ℕ) (s : String) (l : Lexer) (r : Result (List Diagnostic) (List Token))
      → AllExplained l.diagnostics
      → run source read_literal fuel s l ≡ some r
      → Faults r
  unfolding run advance
  run-Faults fuel String.[] l r h e =
      subst Faults (some-injective _ r e) (result_of-Faults _ l.diagnostics h)
  run-Faults zero (String.◌∷◌ c s) l r h e = cc
  run-Faults (suc fuel) (String.◌∷◌ c s) l r h e =
      let scan = lex_at source read_literal l.cursor c s in
      run-Faults fuel (advance source read_literal l scan).rest (advance source read_literal l scan)
        r (push-AllExplained l _ scan.rest scan.pushed h (lex_at-Explained l.cursor c s)) e

  verdict :
      (r : Result (List Diagnostic) (List Token))
      → Accounts source read_literal r
      → Faults r
      → IsVerdict r
  verdict (ok tokens) a f = tt
  verdict (err ds) a f = (a, f)

  -- The lexer ends on every source text, a round of its loop for each byte being enough: with tokens,
  -- or with one diagnostic at least, and `explain` has an explanation of the code of each.
  pub lex_total :
      (r : Result (List Diagnostic) (List Token)) × (lex source read_literal ≡ some r) × IsVerdict r
  unfolding lex
  lex_total =
      let all = lex-Accounts source read_literal in
      (
        all.0,
        all.1,
        verdict all.0 all.2 (
            run-Faults (byte_length source.text) source.text (begin source read_literal) all.0 tt
              all.1),
      )
