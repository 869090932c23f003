-- ===== src/Events/Sink.antt =====
-- framework/core/src/journal/event_sink.cpp: `Line` and the calls of `EventSink`. What `writeTo` puts out is
-- a value. `std::to_string` of an integer and of a double are arguments, and a double is its bits.
use thorium.Prelude.{
  ℕ, Bool, true, false, not, ◌||◌, Option, none, some, List, [], ◌∷◌, ◌++◌, Text, text,
  if◌then◌else◌,
}
use thorium.Journal.Records.{
  Verb, measure, setup, apply, remove, connect, disconnect, write, read, arm, await, fetch, delay,
  verify, safe, note, RunInfo, JournalEvent, SinkCall, on_run_start, on_group_start, on_group_end,
  on_test_start, on_phase_start, on_phase_end, on_event, on_test_end, on_run_end,
}
use thorium.Json.{json_quoted}

-- `meta::to_string( verb)`: the enumerator's spelling.
unfoldable pub verb_name : Verb → Text
verb_name measure = text "Measure"
verb_name setup = text "Setup"
verb_name apply = text "Apply"
verb_name remove = text "Remove"
verb_name connect = text "Connect"
verb_name disconnect = text "Disconnect"
verb_name write = text "Write"
verb_name read = text "Read"
verb_name arm = text "Arm"
verb_name await = text "Await"
verb_name fetch = text "Fetch"
verb_name delay = text "Delay"
verb_name verify = text "Verify"
verb_name safe = text "Safe"
verb_name note = text "Note"

pub record Line : Type 0 where
  pub so_far : Text
  pub first_nested : Bool

abbrev pub empty : Text → Bool
empty [] = true
empty (_ ∷ _) = false

abbrev pub spelled_bool : Bool → Text
spelled_bool true = text "true"
spelled_bool false = text "false"

-- `"," + jsonQuoted( key) + ":"`
abbrev pub key_text : Text → Text
key_text key = json_quoted key ++ text ":"

abbrev pub and_field : Text → Text → Line → Line
and_field key value line = record line {
  so_far = line.so_far ++ (text "," ++ key_text key ++ value);
}

-- `Line( kind)`
abbrev pub line_of : Text → Line
line_of kind = record { so_far = text "{\"kind\":" ++ json_quoted kind; first_nested = true }

-- `field`, by the type of the value.
unfoldable pub field_text : Text → Text → Line → Line
field_text key value line = if empty value then line else and_field key (json_quoted value) line

unfoldable pub field_bool : Text → Bool → Line → Line
field_bool key value line = and_field key (spelled_bool value) line

unfoldable pub field_verdict : Text → Option Bool → Line → Line
field_verdict key none line = line
field_verdict key (some value) line = and_field key (spelled_bool value) line

unfoldable pub open_object : Text → Line → Line
open_object key line = record {
  so_far = line.so_far ++ (text "," ++ key_text key ++ text "{");
  first_nested = true;
}

abbrev pub and_nested : Text → Text → Line → Line
and_nested key value line = record {
  so_far = line.so_far ++ ((if line.first_nested then [] else text ",") ++ (key_text key ++ value));
  first_nested = false;
}

unfoldable pub nested_text : Text → Text → Line → Line
nested_text key value line = if empty value then line else and_nested key (json_quoted value) line

unfoldable pub nested_bool : Text → Bool → Line → Line
nested_bool key value line = and_nested key (spelled_bool value) line

-- The loop over the values, behind the first.
unfoldable pub more_values : List Text → Text
more_values [] = []
more_values (value ∷ values) = text "," ++ (json_quoted value ++ more_values values)

unfoldable pub nested_array : Text → List Text → Line → Line
nested_array key [] line = line
nested_array key (value ∷ values) line =
    and_nested key (text "[" ++ (json_quoted value ++ (more_values values ++ text "]"))) line

unfoldable pub close_object : Line → Line
close_object line = record line { so_far = line.so_far ++ text "}" }

-- `out << mText << "}\n"`: the line, and behind it the newline.
abbrev pub line_text : Line → Text
line_text line = line.so_far ++ text "}"

pub record LogFiles : Type 0 where
  pub sarif : Text
  pub rtf : Text

unfoldable pub with_info : RunInfo → Line → Line
with_info info line =
    let a =
      nested_text (text "frameworkName") info.framework_name (open_object (text "info") line) in
    let b = nested_text (text "frameworkVersion") info.framework_version a in
    let c = nested_text (text "frameworkRevision") info.framework_revision b in
    let d = nested_text (text "criteriaVariant") info.criteria_variant c in
    let e = nested_text (text "criteriaMaster") info.criteria_master d in
    let f = nested_text (text "dutName") info.dut_name e in
    let g = nested_text (text "dutSerial") info.dut_serial f in
    let h = nested_text (text "rigName") info.rig_name g in
    let i = nested_text (text "operator") info.operator h in
    let j = nested_text (text "hostName") info.host_name i in
    let k = nested_text (text "commandLine") info.command_line j in
    let l = nested_text (text "suiteVersion") info.suite_version k in
    let m = nested_text (text "dutVersion") info.dut_version l in
    let n = nested_text (text "rigVersion") info.rig_version m in
    let o = nested_text (text "startedUtc") info.started_utc n in
    let p = nested_text (text "startedLocal") info.started_local o in
    let q = nested_bool (text "benchAttached") info.bench_attached p in
    close_object (nested_array (text "instruments") info.instruments q)

unfoldable pub with_logs : LogFiles → Line → Line
with_logs logs line =
    if not (empty logs.sarif) || not (empty logs.rtf)
    then close_object (
        nested_text (text "rtf") logs.rtf
          (nested_text (text "sarif") logs.sarif (open_object (text "logs") line)))
    else line

module _ (decimal fixed : ℕ → Text) where
  unfoldable pub field_count : Text → ℕ → Line → Line
  field_count key value line = and_field key (decimal value) line

  unfoldable pub field_number : Text → Option ℕ → Line → Line
  field_number key none line = line
  field_number key (some value) line = and_field key (fixed value) line

  unfoldable pub event_line : JournalEvent → Line
  event_line e =
      let a = field_text (text "verb") (verb_name e.entry.method) (line_of (text "event")) in
      let b = field_count (text "sequence") e.sequence a in
      let c = field_text (text "timeUtc") e.time_utc b in
      let d = field_count (text "wallClockMs") e.wall_clock_unix_millis c in
      let f = field_text (text "group") e.group d in
      let g = field_text (text "test") e.test f in
      let h = field_text (text "phase") e.phase g in
      let i = field_text (text "subject") e.entry.subject h in
      let j = field_text (text "subjectGroup") e.entry.subject_group i in
      let k = field_text (text "detail") e.entry.detail j in
      let l = field_text (text "instrument") e.entry.instrument k in
      let m = field_text (text "value") e.entry.value l in
      let n = field_number (text "numeric") e.entry.numeric m in
      let o = field_text (text "unit") e.entry.unit n in
      let p = field_text (text "criterionText") e.entry.criterion_text o in
      field_verdict (text "passed") e.entry.passed p

  -- The line of each call.
  unfoldable pub line_for : LogFiles → SinkCall → Line
  line_for logs (on_run_start info) = with_logs logs (with_info info (line_of (text "runStart")))
  line_for logs (on_group_start group description) =
      field_text (text "description") description
        (field_text (text "group") group (line_of (text "groupStart")))
  line_for logs (on_group_end group) = field_text (text "group") group (line_of (text "groupEnd"))
  line_for logs (on_test_start test description) =
      field_text (text "description") description
        (field_text (text "test") test (line_of (text "testStart")))
  line_for logs (on_phase_start group phase title) = field_text (text "title") title (
      field_text (text "phase") phase
        (field_text (text "group") group (line_of (text "phaseStart"))))
  line_for logs (on_phase_end phase) = field_text (text "phase") phase (line_of (text "phaseEnd"))
  line_for logs (on_event event) = event_line event
  line_for logs (on_test_end group test passed) =
      field_bool (text "passed") passed
        (field_text (text "test") test (field_text (text "group") group (line_of (text "testEnd"))))
  line_for logs (on_run_end all_passed) =
      field_bool (text "allPassed") all_passed (line_of (text "runEnd"))

  -- What the stream has got behind a sequence of calls.
  unfoldable pub put_out : LogFiles → List SinkCall → Text
  put_out logs [] = []
  put_out logs (call ∷ calls) = (line_text (line_for logs call) ++ text "\n") ++ put_out logs calls
