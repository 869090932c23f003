-- ===== src/Stimulus/Examples.antt =====
-- A short stimulus file.
use thorium.Prelude.{
  ℕ, true, false, Option, none, List, [], ◌∷◌, ◌++◌, map, Text, text, text_beq, all, ◌≡◌, ◌≢◌, ◌<◌,
  All, refl, sym, ◌∙◌, arith,
}
use thorium.Session.{Bytes, fetched, none_left, fresh}
use thorium.Session.Loading.{payload, flag}
use thorium.Session.Bank.{SessionBank, to_live}
use thorium.Payload.{starts_with}
use thorium.Payload.Described.{is_renderable_as_text, describe_from, describe_value}
use thorium.Stimulus.{
  trim_front, trim_back, trimmed, cut_comment, split_from, split_values, payload_from,
}
use thorium.Stimulus.Values.{parse_value}
use thorium.Stimulus.Lines.{IsKeyByte}
use thorium.Stimulus.Written.{parse_line-describe_value}
use thorium.Stimulus.Programs.{
  Entry, bad_line, mixed_shapes, malformed, entry, mixes, at_separator, parse_values, parse_line,
  parse_lines, entries_parsed, program_key, inject_stimulus,
}
use thorium.Stimulus.Mixed.{armed, inject_stimulus-bad_line, inject_stimulus-mixed}
use thorium.Stimulus.Sequences.{read_times, program_key-sequence}

abbrev no_numbers : Text → Option (ℕ × Text)
no_numbers t = none

abbrev no_files : Text → Option Text
no_files name = none

abbrev no_count : ℕ → Text
no_count n = []

abbrev idle_bank : SessionBank
idle_bank = record {
  scripted = fresh;
  current = to_live;
  recorder = record { next_sequence = 0; samples = []; streaming = false; written = [] };
  recording = false;
}

-- A quote, a backslash and a carriage return.
abbrev awkward : Bytes
awkward = b'"' ∷ b'\\' ∷ 13 ∷ []

short : (describe_from (all is_renderable_as_text awkward) [] awkward).1 ≡ false
unfolding describe_from
short = refl

above_signs : (c : ℕ) → b'=' < c → IsKeyByte c
above_signs c h =
    (omega (arith, h), λ e. omega (arith, h, e), λ e. omega (arith, h, e), λ e. omega (arith, h, e))

serial_key : All IsKeyByte (text "Ser")
serial_key = (
  above_signs b'S' (omega arith),
  (above_signs b'e' (omega arith), (above_signs b'r' (omega arith), tt)),
)

parse_line-describe_value_example :
    parse_line no_numbers no_files (text "Ser = " ++ describe_value no_count awkward)
    ≡ entry (text "Ser") (payload awkward ∷ [])
parse_line-describe_value_example =
    parse_line-describe_value no_count no_numbers no_files b'S' (text "er") awkward serial_key
      (omega arith, (omega arith, (omega arith, tt))) short

abbrev good : Text
good = text "Osc.Armed = true # always"

abbrev bad : Text
bad = text "Ser1 Data = true"

abbrev mixing : Text
mixing = text "Ser1.Data = true, \"ACK\""

good_parses : parse_line no_numbers no_files good ≡ entry (text "Osc.Armed") (flag true ∷ [])
unfolding parse_line cut_comment trim_front trim_back trimmed at_separator split_values split_from
    parse_values parse_value text_beq
good_parses = refl

good_stands : parse_line no_numbers no_files good ≢ malformed
good_stands e =
    let apart : entry (text "Osc.Armed") (flag true ∷ []) ≡ malformed = sym good_parses ∙ e in
    absurd cc

bad_does_not : parse_line no_numbers no_files bad ≡ malformed
unfolding parse_line cut_comment trim_front trim_back trimmed at_separator split_values split_from
    parse_values parse_value text_beq
bad_does_not = refl

inject_stimulus-bad_line_example :
    inject_stimulus no_numbers no_files (good ∷ bad ∷ good ∷ []) idle_bank ≡ (bad_line 2, idle_bank)
inject_stimulus-bad_line_example =
    inject_stimulus-bad_line no_numbers no_files (good ∷ []) (good ∷ []) bad idle_bank
      (good_stands, tt) bad_does_not

abbrev armed_first : List Entry
armed_first = (text "Osc.Armed", flag true ∷ []) ∷ []

both_parse :
    parse_lines no_numbers no_files 0 (good ∷ mixing ∷ [])
    ≡ entries_parsed (armed_first ++ (text "Ser1.Data", flag true ∷ payload (text "ACK") ∷ []) ∷ [])
unfolding parse_lines parse_line cut_comment trim_front trim_back trimmed at_separator split_values
    split_from parse_values parse_value text_beq payload_from starts_with
both_parse = refl

inject_stimulus-mixed_example :
    inject_stimulus no_numbers no_files (good ∷ mixing ∷ []) idle_bank
    ≡ (mixed_shapes (text "Ser1.Data"), armed armed_first idle_bank)
unfolding mixes
inject_stimulus-mixed_example =
    inject_stimulus-mixed no_numbers no_files (good ∷ mixing ∷ []) armed_first [] (text "Ser1.Data")
      (flag true) (payload (text "ACK") ∷ []) idle_bank both_parse (refl, tt) refl

program_key-sequence_example :
    read_times 3
      (text "Ser1.Data")
      (program_key (text "Ser1.Data") (map payload (awkward ∷ [] ∷ [])) idle_bank).1.scripted
    ≡ map fetched (awkward ∷ [] ∷ []) ++ none_left ∷ []
program_key-sequence_example = program_key-sequence (text "Ser1.Data") awkward [] [] idle_bank
