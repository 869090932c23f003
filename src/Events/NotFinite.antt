-- ===== src/Events/NotFinite.antt =====
-- An event whose number `std::to_string` does not spell with digits.
use thorium.Prelude.{ℕ, suc, none, some, [], ◌∷◌, ◌++◌, Text, text, ◌≡◌, ◌⊎◌, inl, inr, ap, ◌∙◌}
use thorium.Journal.Records.{JournalEvent, on_event}
use thorium.Json.{json_quoted}
use thorium.Json.Parser.{
  string, number, refused, parse, parse_value, opening, skip_space, spelled, parse_number,
  number_chars,
}
use thorium.Events.{parse_event, event_of_document}
use thorium.Events.Sink.{LogFiles, line_text, line_for, verb_name}
use thorium.Events.Written.{Cells, rendered, words, verdict, figure, figure_if}
use thorium.Events.Reads.{Numeral}
use thorium.Events.Parsed.{Sound, done, ◌also◌, SoundCell-words, SoundCell-figure}
use thorium.Events.Refused.{parse-refused}
use thorium.Events.Spelled.{line_text-rendered}

-- How `std::to_string` spells a double that is not finite.
abbrev pub SpelledNotFinite : Text → Type 0
SpelledNotFinite t = (t ≡ text "inf") ⊎ (t ≡ text "-inf") ⊎ (t ≡ text "nan") ⊎ (t ≡ text "-nan")

module _ (strtod : Text → ℕ) (decimal fixed : ℕ → Text) where
  parse_value-not_finite :
      (v : Text)
      → SpelledNotFinite v
      → (f : ℕ) (t : Text) → parse_value strtod (suc f) (v ++ t) ≡ refused
  unfolding parse_value opening skip_space spelled parse_number number_chars
  parse_value-not_finite v (inl e) f t = ap (λ u. parse_value strtod (suc f) (u ++ t)) e
  parse_value-not_finite v (inr (inl e)) f t = ap (λ u. parse_value strtod (suc f) (u ++ t)) e
  parse_value-not_finite v (inr (inr (inl e))) f t = ap (λ u. parse_value strtod (suc f) (u ++ t)) e
  parse_value-not_finite v (inr (inr (inr e))) f t = ap (λ u. parse_value strtod (suc f) (u ++ t)) e

  abbrev before_numeric : JournalEvent → Cells
  before_numeric e =
      (text "verb", words (verb_name e.entry.method))
      ∷ (text "sequence", figure strtod (decimal e.sequence))
      ∷ (text "timeUtc", words e.time_utc)
      ∷ (text "wallClockMs", figure strtod (decimal e.wall_clock_unix_millis))
      ∷ (text "group", words e.group)
      ∷ (text "test", words e.test)
      ∷ (text "phase", words e.phase)
      ∷ (text "subject", words e.entry.subject)
      ∷ (text "subjectGroup", words e.entry.subject_group)
      ∷ (text "detail", words e.entry.detail)
      ∷ (text "instrument", words e.entry.instrument)
      ∷ (text "value", words e.entry.value)
      ∷ []

  abbrev behind_numeric : JournalEvent → Cells
  behind_numeric e =
      (text "unit", words e.entry.unit)
      ∷ (text "criterionText", words e.entry.criterion_text)
      ∷ (text "passed", verdict e.entry.passed)
      ∷ []

  before_numeric-Sound :
      (e : JournalEvent)
      → Numeral (decimal e.sequence)
      → Numeral (decimal e.wall_clock_unix_millis)
      → Sound strtod ((text "kind", words (text "event")) ∷ before_numeric e)
  before_numeric-Sound e n m =
      (SoundCell-words strtod (text "event")
        also SoundCell-words strtod (verb_name e.entry.method)
        also SoundCell-figure strtod (decimal e.sequence) n
        also SoundCell-words strtod e.time_utc
        also SoundCell-figure strtod (decimal e.wall_clock_unix_millis) m
        also SoundCell-words strtod e.group
        also SoundCell-words strtod e.test
        also SoundCell-words strtod e.phase
        also SoundCell-words strtod e.entry.subject
        also SoundCell-words strtod e.entry.subject_group
        also SoundCell-words strtod e.entry.detail
        also SoundCell-words strtod e.entry.instrument
        also SoundCell-words strtod e.entry.value
        also done)

  -- An event whose number is an infinity or no number is lost: the web interface makes nothing of its
  -- line. This is where the sequence number and the time are spelled as numbers.
  pub parse_event-not_finite :
      (logs : LogFiles) (e : JournalEvent) (x : ℕ)
      → e.entry.numeric ≡ some x
      → SpelledNotFinite (fixed x)
      → Numeral (decimal e.sequence)
      → Numeral (decimal e.wall_clock_unix_millis)
      → parse_event strtod (line_text (line_for decimal fixed logs (on_event e))) ≡ none
  unfolding parse_event
  parse_event-not_finite logs e x is bad n m =
      ap (λ t. event_of_document (parse strtod t))
        (line_text-rendered strtod decimal fixed logs (on_event e))
      ∙ ap
          (λ o. event_of_document (
            parse strtod (
              b'{'
              ∷ (rendered (
                    (text "kind", words (text "event"))
                    ∷ (before_numeric e
                        ++ (text "numeric", figure_if strtod fixed o) ∷ behind_numeric e))
                  ++ text "}"))))
          is
      ∙ ap event_of_document (
          parse-refused strtod (json_quoted (text "event")) (string (text "event"))
            (before_numeric e) (behind_numeric e) (text "kind") (text "numeric") (fixed x)
            (number (strtod (fixed x))) (before_numeric-Sound e n m)
            (parse_value-not_finite (fixed x) bad))
