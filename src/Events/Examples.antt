-- ===== src/Events/Examples.antt =====
-- The lines of a short run, cut into chunks.
use thorium.Prelude.{
  ℕ, true, none, some, List, [], ◌∷◌, ◌++◌, map, take, drop, Text, text, ◌≡◌, refl, inl,
}
use thorium.Journal.Records.{SinkCall, verify, JournalEvent, on_group_start, on_event, on_run_end}
use thorium.Json.{json_quoted, json_escape}
use thorium.Events.{parse_event}
use thorium.Events.Sink.{
  LogFiles, line_text, line_for, put_out, field_text, field_bool, field_count, field_number,
  field_verdict, event_line, verb_name,
}
use thorium.Events.Stream.{consume, consume_each, whole_text, consume_each-whole_text}
use thorium.Events.Heard.{event_for}
use thorium.Events.NotFinite.{parse_event-not_finite}
use thorium.Events.Watched.{consume_each-put_out}

-- Numbers of one digit.
abbrev digit : ℕ → Text
digit n = 48 ∷ []

abbrev no_doubles : Text → ℕ
no_doubles digits = 0

abbrev no_logs : LogFiles
no_logs = record { sarif = []; rtf = [] }

abbrev reading : JournalEvent
reading = record {
  entry = record {
    method = verify;
    subject = text "a \"rail\"";
    subject_group = [];
    detail = [];
    instrument = text "Dmm";
    value = text "3.3";
    numeric = some 5;
    unit = text "V";
    criterion_text = [];
    passed = some true;
  };
  sequence = 1;
  wall_clock_unix_millis = 2;
  time_utc = text "2026";
  group = text "Power";
  test = text "T1";
  phase = [];
}

abbrev short_run : List SinkCall
short_run = on_group_start (text "Power") [] ∷ on_event reading ∷ on_run_end true ∷ []

-- A further line has begun, and the pipe has cut behind five bytes.
abbrev begun : Text
begun = text "{\"kind"

abbrev delivered : Text
delivered = put_out digit digit no_logs short_run ++ begun

consume_each-whole_text_example :
    consume_each no_doubles [] (begun ∷ text "\"}\n{" ∷ [])
    ≡ consume no_doubles [] (whole_text (begun ∷ text "\"}\n{" ∷ []))
consume_each-whole_text_example = consume_each-whole_text no_doubles (begun ∷ text "\"}\n{" ∷ [])

cut : take 5 delivered ++ (drop 5 delivered ++ []) ≡ delivered
unfolding put_out line_for field_text field_bool event_line field_count field_number field_verdict
    verb_name json_quoted json_escape
cut = refl

consume_each-put_out_example :
    consume_each no_doubles [] (take 5 delivered ∷ drop 5 delivered ∷ [])
    ≡ (map (event_for no_doubles digit digit no_logs) short_run, begun)
consume_each-put_out_example =
    consume_each-put_out no_doubles digit digit no_logs short_run
      (take 5 delivered ∷ drop 5 delivered ∷ []) begun cut
      (tt, (((refl, inl refl), (refl, inl refl), (refl, inl refl)), (tt, tt))) refl

-- The reading's number is an infinity.
abbrev infinity : ℕ → Text
infinity bits = text "inf"

parse_event-not_finite_example :
    parse_event no_doubles (line_text (line_for digit infinity no_logs (on_event reading))) ≡ none
parse_event-not_finite_example =
    parse_event-not_finite no_doubles digit infinity no_logs reading 5 refl (inl refl)
      (refl, inl refl) (refl, inl refl)
