-- ===== src/Syntax/Lexer/Lossless.antt =====
-- The loop of lexer.rs over a whole source text, and the tokens that it leaves.
use Prim.Native.Char.{code}
use aster_lang.Base.{
  ℕ, zero, suc, ◌+◌, ◌<◌, ◌≤◌, String, ◌≡◌, refl, sym, ap, ◌∙◌, subst, Option, some, List, [], ◌∷◌,
  ◌++◌, arith,
}
use text.Mathlib.TextLemmas.{nil-append, append_assoc}
use aster_lang.Base.Outcome.{Result, ok, err}
use aster_lang.Base.Text.{◌+++◌}
use aster_lang.Diagnostic.{Diagnostic}
use aster_lang.Syntax.Source.{SourceFile, byte_length, from_offsets}
use aster_lang.Syntax.Token.{eof, Token}
use aster_lang.Syntax.Loops.{insert_diagnostic, sort_diagnostics}
use aster_lang.Syntax.Loops.Splits.{byte_length-append}
use aster_lang.Syntax.Lexer.{
  Lexer, Scan, Pushed, token, errors, lex_at, push, advance, result_of, finish, run, begin, lex,
  span_at,
}
use aster_lang.Syntax.Lexer.Spelling.{Spells, Spelt, Fits}
use aster_lang.Syntax.Lexer.Scans.{lex_at-Fits}
use mathlib.Core.Option.{some-injective}
use aster_lang.Syntax.Lexer.Places.{len_utf8_pos, placed}

module _ (source : SourceFile) (read_literal : String → Option String) where
  -- The tokens make up the text from one place to another, piece by piece: each stands for its
  -- piece, and its span is the piece's.
  abbrev pub Reads : String → List Token → String → Type 0
  Reads before [] after = before ≡ after
  Reads before (t ∷ ts) after =
      (piece : String) × Spells read_literal t.kind piece
      × (from_offsets source.path source.text (byte_length before) (byte_length (before +++ piece))
          ≡ ok t.span)
      × Reads (before +++ piece) ts after

  Reads-snoc :
      (before : String) (ts : List Token) (middle piece : String) (t : Token)
      → Reads before ts middle
      → Spells read_literal t.kind piece
      → from_offsets source.path source.text (byte_length middle) (byte_length (middle +++ piece))
        ≡ ok t.span
      → Reads before (ts ++ t ∷ []) (middle +++ piece)
  Reads-snoc before [] middle piece t h s e = (
    piece,
    s,
    subst
        (λ m.
          from_offsets source.path source.text (byte_length m) (byte_length (m +++ piece))
          ≡ ok t.span)
        (sym h) e,
    ap (λ m. m +++ piece) h,
  )
  Reads-snoc before (u ∷ ts) middle piece t h s e =
      (h.0, h.1, h.2, Reads-snoc (before +++ h.0) ts middle piece t h.3 s e)

  -- How the lexer stands before a text: it is the rest of the source after what was passed, and
  -- the tokens make that up unless there is a diagnostic.
  record Stands (passed rest : String) (l : Lexer) : Type 0 where
    whole : passed +++ rest ≡ source.text
    place : l.cursor ≡ byte_length passed
    reads : l.diagnostics ≡ [] → Reads "" l.tokens passed

  snoc-not_empty :
      (ds : List Diagnostic) (d : Diagnostic) (es : List Diagnostic) → ¬ (ds ++ d ∷ es ≡ [])
  snoc-not_empty [] d es h = cc
  snoc-not_empty (c ∷ ds) d es h = cc

  push-Stands :
      (passed taken rest : String) (l : Lexer) (p : Pushed)
      → Stands passed (taken +++ rest) l
      → Spelt read_literal p taken
      → Stands
          (passed +++ taken)
          rest
          (push source read_literal l (l.cursor + byte_length taken) rest p)
  push-Stands passed taken rest l (token kind) st sp = record {
    whole = append_assoc passed taken rest ∙ st.whole;
    place = ap (λ n. n + byte_length taken) st.place ∙ sym (byte_length-append passed taken);
    reads = λ none_yet.
        Reads-snoc "" l.tokens passed taken _ (st.reads none_yet) sp
          (placed source read_literal passed taken rest l.cursor st.whole st.place);
  }
  push-Stands passed taken rest l (errors d ds) st sp = record {
    whole = append_assoc passed taken rest ∙ st.whole;
    place = ap (λ n. n + byte_length taken) st.place ∙ sym (byte_length-append passed taken);
    reads = λ h. absurd (snoc-not_empty l.diagnostics d ds h);
  }

  push_rest :
      (l : Lexer) (n : ℕ) (rest : String) (p : Pushed)
      → (push source read_literal l n rest p).rest ≡ rest
  push_rest l n rest (token kind) = refl
  push_rest l n rest (errors d ds) = refl

  shorter :
      (s : String) (scan : Scan) → Fits read_literal s scan → byte_length scan.rest < byte_length s
  unfolding byte_length
  shorter s scan fit =
      let whole = ap byte_length (sym fit.splits) ∙ byte_length-append scan.taken scan.rest in
      let some_bytes = ap byte_length fit.passes in
      let one = len_utf8_pos (code fit.first) in omega arith

  advance-Stands :
      (passed s : String) (l : Lexer) (scan : Scan)
      → Stands passed s l
      → Fits read_literal s scan
      → Stands
          (passed +++ scan.taken)
          (advance source read_literal l scan).rest
          (advance source read_literal l scan)
  unfolding advance
  advance-Stands passed s l scan st fit =
      let n = l.cursor + byte_length scan.taken in
      subst
        (λ t. Stands (passed +++ scan.taken) t (push source read_literal l n scan.rest scan.pushed))
        (sym (push_rest l n scan.rest scan.pushed))
        (push-Stands passed scan.taken scan.rest l scan.pushed
          (subst (λ t. Stands passed t l) (sym fit.splits) st) fit.spelt)

  advance_shorter :
      (s : String) (l : Lexer) (scan : Scan)
      → Fits read_literal s scan
      → byte_length (advance source read_literal l scan).rest < byte_length s
  unfolding advance
  advance_shorter s l scan fit =
      subst (λ t. byte_length t < byte_length s) (sym (push_rest l _ scan.rest scan.pushed))
        (shorter s scan fit)

  -- What the lexer ends with: tokens that make the whole text up, or some diagnostics.
  abbrev pub Accounts : Result (List Diagnostic) (List Token) → Type 0
  Accounts (ok tokens) = Reads "" tokens source.text
  Accounts (err diagnostics) = ¬ (diagnostics ≡ [])

  insert-not_empty : (d : Diagnostic) (ds : List Diagnostic) → ¬ (insert_diagnostic d ds ≡ [])
  unfolding insert_diagnostic
  insert-not_empty d [] h = cc
  insert-not_empty d (e ∷ ds) h = ground arith

  result_of-Accounts :
      (tokens : List Token) (ds : List Diagnostic)
      → (ds ≡ [] → Reads "" tokens source.text)
      → Accounts (result_of source read_literal tokens ds)
  unfolding sort_diagnostics
  result_of-Accounts tokens [] h = h refl
  result_of-Accounts tokens (d ∷ ds) h = insert-not_empty d (sort_diagnostics ds)

  add_zero : (n : ℕ) → n + byte_length "" ≡ n
  unfolding byte_length
  add_zero n = omega arith

  finish-Accounts :
      (passed : String) (l : Lexer) → Stands passed "" l → Accounts (finish source read_literal l)
  unfolding byte_length
  finish-Accounts passed l st =
      let last : Token = record {
        kind = eof;
        span = span_at source read_literal l.cursor l.cursor;
      } in
      result_of-Accounts (l.tokens ++ last ∷ []) l.diagnostics λ clean.
        subst (λ t. Reads "" (l.tokens ++ last ∷ []) t) st.whole
          (Reads-snoc "" l.tokens passed "" last (st.reads clean) (refl {A = List ℕ} {a = []}) (
            subst
              (λ n.
                from_offsets source.path source.text (byte_length passed)
                  (byte_length (passed +++ ""))
                ≡ ok (span_at source read_literal l.cursor n))
              (add_zero l.cursor)
              (placed source read_literal passed "" "" l.cursor
                (ap (λ t. passed +++ t) (nil-append "") ∙ st.whole) st.place)))

  run-Accounts :
      (fuel : ℕ) (s passed : String) (l : Lexer)
      → Stands passed s l
      → byte_length s ≤ fuel
      → (r : Result (List Diagnostic) (List Token)) × (run source read_literal fuel s l ≡ some r)
        × Accounts r
  unfolding run byte_length
  run-Accounts fuel String.[] passed l st enough = (_, refl, finish-Accounts passed l st)
  run-Accounts zero (String.◌∷◌ c s) passed l st enough =
      let one = len_utf8_pos (code c) in absurd (omega arith)
  run-Accounts (suc fuel) (String.◌∷◌ c s) passed l st enough =
      let scan = lex_at source read_literal l.cursor c s in
      let fit = lex_at-Fits read_literal source l.cursor c s in
      run-Accounts fuel (advance source read_literal l scan).rest (passed +++ scan.taken)
        (advance source read_literal l scan) (advance-Stands passed (String.◌∷◌ c s) l scan st fit)
        (omega (arith, enough, advance_shorter (String.◌∷◌ c s) l scan fit))

  pub lex-Accounts :
      (r : Result (List Diagnostic) (List Token)) × (lex source read_literal ≡ some r) × Accounts r
  unfolding lex byte_length
  lex-Accounts =
      run-Accounts (byte_length source.text) source.text "" (begin source read_literal)
        record { whole = nil-append source.text; place = refl; reads = λ _. refl } (omega arith)

  -- The tokens that the lexer gives make up the whole source text, piece by piece.
  pub lex-Reads :
      (tokens : List Token)
      → lex source read_literal ≡ some (ok tokens)
      → Reads "" tokens source.text
  lex-Reads tokens h = subst Accounts (some-injective _ _ (sym lex-Accounts.1 ∙ h)) lex-Accounts.2
