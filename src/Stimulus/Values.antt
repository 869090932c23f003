-- ===== src/Stimulus/Values.antt =====
-- framework/core/src/session/stimulus.cpp: `parseQuantity`, `parseTrace`, `parseValue` and `readSamples`.
use thorium.Prelude.{
  ℕ, Bool, true, false, ◌&&◌, Option, none, some, List, [], ◌∷◌, ◌++◌, Text, text, text_eq, ◌==◌,
  eqb, if◌then◌else◌, drop,
}
use thorium.Session.{QuantityKind, QuantityVariant, Waveform, Bytes}
use thorium.Session.Loading.{RecordedValue, reading, payload, flag, trace}
use thorium.Payload.{Parsed, parsed, not_a_digit, odd_digits, from_hex, starts_with}
use thorium.Stimulus.{
  is_blank, trimmed, split_values, parse_text_payload, quantity_kind_from_symbol, time_kind,
  at_blank, last_of, without_last,
}

-- `in >> token`, until it fails: the runs of bytes between blanks.
abbrev pub and_token : Text → List Text → List Text
and_token [] tokens = tokens
and_token (c ∷ t) tokens = (c ∷ t) ∷ tokens

unfoldable pub tokens_from : Text → Text → List Text
tokens_from since [] = and_token since []
tokens_from since (c ∷ t) =
    let cut = tokens_from [] t in
    let later = tokens_from (since ++ c ∷ []) t in if is_blank c then and_token since cut else later

-- The samples of a trace are in brackets, or in the file that it names.
pub data Samples : Type 0 where
  inline_samples : Text → Samples
  file_samples : Text → Samples
  no_samples : Samples

abbrev pub quoted_name : Text → Samples
quoted_name [] = no_samples
quoted_name (c ∷ t) =
    if eqb (last_of c t) b'"' then file_samples (without_last (c ∷ t)) else no_samples

abbrev pub samples_of : Text → Samples
samples_of [] = no_samples
samples_of (c ∷ t) =
    if eqb c b'"'
    then quoted_name t
    else if eqb c b'[' && eqb (last_of c t) b']'
    then inline_samples (without_last t)
    else no_samples

module _ (from_chars : Text → Option (ℕ × Text)) (open_file : Text → Option Text) where
  -- `error == std::errc{}` and the end of the number is the end of the text.
  abbrev pub whole_number : Option (ℕ × Text) → Option ℕ
  whole_number none = none
  whole_number (some (value, [])) = some value
  whole_number (some (value, c ∷ rest)) = none

  abbrev pub parse_number : Text → Option ℕ
  parse_number t = whole_number (from_chars t)

  abbrev pub quantity_of : Option QuantityKind → Option ℕ → Option QuantityVariant
  quantity_of (some kind) (some amount) = some (record { kind = kind; amount = amount })
  quantity_of _ _ = none

  unfoldable pub parse_quantity : Text → Option QuantityVariant
  parse_quantity t =
      let (number, symbol) = at_blank t in
      quantity_of (quantity_kind_from_symbol (trimmed symbol)) (parse_number (trimmed number))

  abbrev pub and_number : Option ℕ → Option (List ℕ) → Option (List ℕ)
  and_number (some first) (some rest) = some (first ∷ rest)
  and_number _ _ = none

  unfoldable pub parse_numbers : List Text → Option (List ℕ)
  parse_numbers [] = some []
  parse_numbers (token ∷ tokens) = and_number (parse_number token) (parse_numbers tokens)

  abbrev pub any_numbers : Option (List ℕ) → Option (List ℕ)
  any_numbers none = none
  any_numbers (some []) = none
  any_numbers (some (first ∷ rest)) = some (first ∷ rest)

  -- `readSamples`, of what the file holds.
  abbrev pub numbers_in : Option Text → Option (List ℕ)
  numbers_in none = none
  numbers_in (some content) = any_numbers (parse_numbers (tokens_from [] content))

  unfoldable pub read_samples : Text → Option (List ℕ)
  read_samples name = numbers_in (open_file name)

  -- `traceFromFile`
  abbrev pub trace_from : QuantityKind → ℕ → ℕ → Option (List ℕ) → Option Waveform
  trace_from kind origin increment none = none
  trace_from kind origin increment (some samples) =
      some (record { unit = kind; origin = origin; increment = increment; samples = samples })

  abbrev pub trace_from_file : QuantityKind → ℕ → ℕ → Text → Option Waveform
  trace_from_file kind origin increment name = trace_from kind origin increment (read_samples name)

  abbrev pub samples_read : Samples → Option (List ℕ)
  samples_read (inline_samples t) = parse_numbers (tokens_from [] t)
  samples_read (file_samples name) = read_samples name
  samples_read no_samples = none

  -- Its origin and its increment are times.
  abbrev pub waveform_of :
      Option QuantityKind
      → Option QuantityVariant
      → Option QuantityVariant
      → Option (List ℕ)
      → Option Waveform
  waveform_of (some kind) (some origin) (some increment) (some samples) =
      if eqb origin.kind time_kind && eqb increment.kind time_kind
      then some (record {
        unit = kind;
        origin = origin.amount;
        increment = increment.amount;
        samples = samples;
      })
      else none
  waveform_of _ _ _ _ = none

  abbrev pub trace_of : List Text → Option Waveform
  trace_of (symbol ∷ origin ∷ increment ∷ samples ∷ []) =
      waveform_of (quantity_kind_from_symbol symbol) (parse_quantity origin)
        (parse_quantity increment) (samples_read (samples_of samples))
  trace_of _ = none

  abbrev pub parse_trace : ℕ → Text → Option Waveform
  parse_trace c t =
      if eqb (last_of c t) b')'
      then trace_of (split_values (without_last (drop 6 (c ∷ t))))
      else none

  abbrev pub trace_value : Option Waveform → Option RecordedValue
  trace_value none = none
  trace_value (some waveform) = some (trace waveform)

  abbrev pub payload_value : Option Bytes → Option RecordedValue
  payload_value none = none
  payload_value (some bytes) = some (payload bytes)

  abbrev pub hex_value : Parsed → Option RecordedValue
  hex_value (parsed bytes) = some (payload bytes)
  hex_value (not_a_digit _) = none
  hex_value odd_digits = none

  abbrev pub reading_value : Option QuantityVariant → Option RecordedValue
  reading_value none = none
  reading_value (some quantity) = some (reading quantity)

  -- Its closing quote is another byte than its first.
  abbrev pub is_quoted : Text → Bool
  is_quoted [] = false
  is_quoted (c ∷ t) = eqb (last_of c t) b'"'

  unfoldable pub parse_value : Text → Option RecordedValue
  parse_value [] = none
  parse_value (c ∷ t) =
      if (c ∷ t) == text "true"
      then some (flag true)
      else if (c ∷ t) == text "false"
      then some (flag false)
      else if starts_with (text "trace(") (c ∷ t)
      then trace_value (parse_trace c t)
      else if eqb c b'"'
      then (if is_quoted t then payload_value (parse_text_payload (c ∷ t)) else none)
      else if eqb c b'<'
      then (if eqb (last_of c t) b'>' then hex_value (from_hex (without_last t)) else none)
      else reading_value (parse_quantity (c ∷ t))
