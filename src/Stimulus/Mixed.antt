-- ===== src/Stimulus/Mixed.antt =====
-- What `injectStimulus` has armed when it throws.
use thorium.Prelude.{
  ℕ, ◌+◌, true, false, Option, List, [], ◌∷◌, ◌++◌, Text, if◌then◌else◌, length, All, ◌≡◌, ◌≢◌,
  refl, ap, sym, ◌∙◌, arith,
}
use mathlib.Core.List.{append-nil}
use thorium.Session.Bank.{SessionBank}
use thorium.Session.Loading.{RecordedValue}
use thorium.Stimulus.Programs.{
  Entry, injected, bad_line, mixed_shapes, shape_of, mixes, program_shape, program_key, goes_on,
  program_all, LineOf, blank, malformed, entry, parse_line, entries_parsed, line_refused,
  line_parsed, parse_lines, inject_parsed, inject_stimulus,
}

-- All values of the entry have one shape.
abbrev pub IsUniform : Entry → Type 0
IsUniform (key, []) = Unit
IsUniform (key, value ∷ values) = mixes (shape_of value) (value ∷ values) ≡ false

-- The bank with the entries armed, one after the other.
abbrev pub armed_one : Entry → SessionBank → SessionBank
armed_one (key, []) b = b
armed_one (key, value ∷ values) b = program_shape key (value ∷ values) value b

abbrev pub armed : List Entry → SessionBank → SessionBank
armed [] b = b
armed (e ∷ entries) b = armed entries (armed_one e b)

program_all-armed :
    (entries later : List Entry) (b : SessionBank)
    → All IsUniform entries
    → program_all (entries ++ later) b ≡ program_all later (armed entries b)
unfolding program_all program_key
program_all-armed [] later b u = refl
program_all-armed ((key, []) ∷ entries) later b u = program_all-armed entries later b u.1
program_all-armed ((key, value ∷ values) ∷ entries) later b u =
    ap
      (λ mixed.
        goes_on key
          (if mixed then (false, b) else (true, program_shape key (value ∷ values) value b))
          (λ after. program_all (entries ++ later) after))
      u.0
    ∙ program_all-armed entries later (program_shape key (value ∷ values) value b) u.1

module _ (from_chars : Text → Option (ℕ × Text)) (open_file : Text → Option Text) where
  parse_lines-refused :
      (lines later : List Text) (bad : Text) (number : ℕ)
      → All (λ line. parse_line from_chars open_file line ≢ malformed) lines
      → parse_line from_chars open_file bad ≡ malformed
      → parse_lines from_chars open_file number (lines ++ bad ∷ later)
        ≡ line_refused (number + (length lines + 1))
  unfolding parse_lines
  parse_lines-refused [] later bad number p e =
      ap
        (λ l.
          line_parsed from_chars open_file l (number + 1)
            (parse_lines from_chars open_file (number + 1) later))
        e
  parse_lines-refused (line ∷ lines) later bad number p e =
      ap (line_parsed from_chars open_file (parse_line from_chars open_file line) (number + 1))
        (parse_lines-refused lines later bad (number + 1) p.1 e)
      ∙ by_line (parse_line from_chars open_file line) p.0
      ∙ ap line_refused (omega arith)
    where
      refused_at : ℕ
      refused_at = number + 1 + (length lines + 1)

      by_line :
          (l : LineOf)
          → l ≢ malformed
          → line_parsed from_chars open_file l (number + 1) (line_refused refused_at)
            ≡ line_refused refused_at
      by_line blank h = refl
      by_line malformed h = absurd (h refl)
      by_line (entry key values) h = refl

  -- A malformed line leaves the bank as it was, and the exception has the line's number. The lines in
  -- front of it are well-formed.
  pub inject_stimulus-bad_line :
      (lines later : List Text) (bad : Text) (b : SessionBank)
      → All (λ line. parse_line from_chars open_file line ≢ malformed) lines
      → parse_line from_chars open_file bad ≡ malformed
      → inject_stimulus from_chars open_file (lines ++ bad ∷ later) b
        ≡ (bad_line (length lines + 1), b)
  unfolding inject_stimulus program_all
  inject_stimulus-bad_line lines later bad b p e =
      ap (λ r. inject_parsed from_chars open_file r b) (parse_lines-refused lines later bad 0 p e)
      ∙ ap (λ n. (bad_line n, b)) (omega arith)

  -- An entry whose values have different shapes is refused only when the entries in front of it are
  -- armed already: they stay armed, and the exception has the key and no line.
  pub inject_stimulus-mixed :
      (lines : List Text) (entries later : List Entry) (key : Text) (value : RecordedValue)
      (values : List RecordedValue) (b : SessionBank)
      → parse_lines from_chars open_file 0 lines
        ≡ entries_parsed (entries ++ (key, value ∷ values) ∷ later)
      → All IsUniform entries
      → mixes (shape_of value) (value ∷ values) ≡ true
      → inject_stimulus from_chars open_file lines b ≡ (mixed_shapes key, armed entries b)
  unfolding inject_stimulus program_all program_key
  inject_stimulus-mixed lines entries later key value values b parsed u m =
      ap (λ r. inject_parsed from_chars open_file r b) parsed
      ∙ program_all-armed entries ((key, value ∷ values) ∷ later) b u
      ∙ ap
          (λ mixed.
            goes_on key
              (if mixed
                then (false, armed entries b)
                else (true, program_shape key (value ∷ values) value (armed entries b)))
              (λ after. program_all later after))
          m

  -- Where every line is well-formed and every entry has one shape, all entries are armed in their
  -- order.
  pub inject_stimulus-armed :
      (lines : List Text) (entries : List Entry) (b : SessionBank)
      → parse_lines from_chars open_file 0 lines ≡ entries_parsed entries
      → All IsUniform entries
      → inject_stimulus from_chars open_file lines b ≡ (injected, armed entries b)
  unfolding inject_stimulus program_all
  inject_stimulus-armed lines entries b parsed u =
      ap (λ r. inject_parsed from_chars open_file r b)
        (parsed ∙ ap entries_parsed (sym (append-nil entries)))
      ∙ program_all-armed entries [] b u
