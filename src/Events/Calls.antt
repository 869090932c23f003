-- ===== src/Events/Calls.antt =====
-- The fields that each line of `EventSink` holds, call by call.
use thorium.Prelude.{
  ℕ, Bool, true, false, not, ◌||◌, none, some, [], ◌∷◌, ◌++◌, Text, text, if◌then◌else◌, sym,
}
use mathlib.Core.List.{append-nil}
use thorium.Journal.Records.{
  RunInfo, JournalEvent, SinkCall, on_run_start, on_group_start, on_group_end, on_test_start,
  on_phase_start, on_phase_end, on_event, on_test_end, on_run_end,
}
use thorium.Events.Sink.{
  Line, LogFiles, empty, line_of, line_for, with_info, with_logs, event_line, verb_name,
  close_object, open_object, nested_text,
}
use thorium.Events.Written.{
  Cell, Cells, words, verdict, figure, figure_if, listed, nest, Tells, Tells-field_text,
  Tells-field_bool, Tells-field_verdict, Tells-field_count, Tells-field_number, Tells-left_out,
}
use thorium.Events.Nested.{
  Nests-open_object, Nests-nested_text, Nests-nested_bool, Nests-nested_array, Tells-close_object,
}

abbrev pub info_cells : RunInfo → Cells
info_cells info =
    (text "frameworkName", words info.framework_name)
    ∷ (text "frameworkVersion", words info.framework_version)
    ∷ (text "frameworkRevision", words info.framework_revision)
    ∷ (text "criteriaVariant", words info.criteria_variant)
    ∷ (text "criteriaMaster", words info.criteria_master)
    ∷ (text "dutName", words info.dut_name)
    ∷ (text "dutSerial", words info.dut_serial)
    ∷ (text "rigName", words info.rig_name)
    ∷ (text "operator", words info.operator)
    ∷ (text "hostName", words info.host_name)
    ∷ (text "commandLine", words info.command_line)
    ∷ (text "suiteVersion", words info.suite_version)
    ∷ (text "dutVersion", words info.dut_version)
    ∷ (text "rigVersion", words info.rig_version)
    ∷ (text "startedUtc", words info.started_utc)
    ∷ (text "startedLocal", words info.started_local)
    ∷ (text "benchAttached", verdict (some info.bench_attached))
    ∷ (text "instruments", listed info.instruments)
    ∷ []

abbrev pub log_cells : LogFiles → Cells
log_cells logs = (text "sarif", words logs.sarif) ∷ (text "rtf", words logs.rtf) ∷ []

abbrev pub logs_cell : LogFiles → Cell
logs_cell logs =
    if not (empty logs.sarif) || not (empty logs.rtf) then nest (log_cells logs) else none

-- The kind of a call's line.
abbrev pub kind_name : SinkCall → Text
kind_name (on_run_start _) = text "runStart"
kind_name (on_group_start _ _) = text "groupStart"
kind_name (on_group_end _) = text "groupEnd"
kind_name (on_test_start _ _) = text "testStart"
kind_name (on_phase_start _ _ _) = text "phaseStart"
kind_name (on_phase_end _) = text "phaseEnd"
kind_name (on_event _) = text "event"
kind_name (on_test_end _ _ _) = text "testEnd"
kind_name (on_run_end _) = text "runEnd"

Tells-line_of : (kind : Text) → Tells (line_of kind).so_far (line_of kind) []
Tells-line_of kind = record { text_is = sym (append-nil _) }

module _ (strtod : Text → ℕ) (decimal fixed : ℕ → Text) where
  abbrev pub event_cells : JournalEvent → Cells
  event_cells e =
      (text "verb", words (verb_name e.entry.method))
      ∷ (text "sequence", figure strtod (decimal e.sequence))
      ∷ (text "timeUtc", words e.time_utc)
      ∷ (text "wallClockMs", figure strtod (decimal e.wall_clock_unix_millis))
      ∷ (text "group", words e.group)
      ∷ (text "test", words e.test)
      ∷ (text "phase", words e.phase)
      ∷ (text "subject", words e.entry.subject)
      ∷ (text "subjectGroup", words e.entry.subject_group)
      ∷ (text "detail", words e.entry.detail)
      ∷ (text "instrument", words e.entry.instrument)
      ∷ (text "value", words e.entry.value)
      ∷ (text "numeric", figure_if strtod fixed e.entry.numeric)
      ∷ (text "unit", words e.entry.unit)
      ∷ (text "criterionText", words e.entry.criterion_text)
      ∷ (text "passed", verdict e.entry.passed)
      ∷ []

  -- The fields behind it.
  abbrev pub cells_of : LogFiles → SinkCall → Cells
  cells_of logs (on_run_start info) =
      (text "info", nest (info_cells info)) ∷ (text "logs", logs_cell logs) ∷ []
  cells_of logs (on_group_start group description) =
      (text "group", words group) ∷ (text "description", words description) ∷ []
  cells_of logs (on_group_end group) = (text "group", words group) ∷ []
  cells_of logs (on_test_start test description) =
      (text "test", words test) ∷ (text "description", words description) ∷ []
  cells_of logs (on_phase_start group phase title) =
      (text "group", words group) ∷ (text "phase", words phase) ∷ (text "title", words title) ∷ []
  cells_of logs (on_phase_end phase) = (text "phase", words phase) ∷ []
  cells_of logs (on_event event) = event_cells event
  cells_of logs (on_test_end group test passed) =
      (text "group", words group)
      ∷ (text "test", words test)
      ∷ (text "passed", verdict (some passed))
      ∷ []
  cells_of logs (on_run_end all_passed) = (text "allPassed", verdict (some all_passed)) ∷ []

  Tells-with_info :
      (opened : Text) (line : Line) (info : RunInfo)
      → Tells opened line []
      → Tells opened (with_info info line) ((text "info", nest (info_cells info)) ∷ [])
  unfolding with_info
  Tells-with_info opened line info h =
      let a =
        Nests-nested_text (text "frameworkName") (Nests-open_object (text "info") line)
          info.framework_name in
      let b = Nests-nested_text (text "frameworkVersion") a info.framework_version in
      let c = Nests-nested_text (text "frameworkRevision") b info.framework_revision in
      let d = Nests-nested_text (text "criteriaVariant") c info.criteria_variant in
      let e = Nests-nested_text (text "criteriaMaster") d info.criteria_master in
      let f = Nests-nested_text (text "dutName") e info.dut_name in
      let g = Nests-nested_text (text "dutSerial") f info.dut_serial in
      let i = Nests-nested_text (text "rigName") g info.rig_name in
      let j = Nests-nested_text (text "operator") i info.operator in
      let k = Nests-nested_text (text "hostName") j info.host_name in
      let l = Nests-nested_text (text "commandLine") k info.command_line in
      let m = Nests-nested_text (text "suiteVersion") l info.suite_version in
      let n = Nests-nested_text (text "dutVersion") m info.dut_version in
      let o = Nests-nested_text (text "rigVersion") n info.rig_version in
      let p = Nests-nested_text (text "startedUtc") o info.started_utc in
      let q = Nests-nested_text (text "startedLocal") p info.started_local in
      let r = Nests-nested_bool (text "benchAttached") q info.bench_attached in
      Tells-close_object (text "info") h
        (Nests-nested_array (text "instruments") r info.instruments)

  Tells-with_logs :
      (opened : Text) (line : Line) (logs : LogFiles) (cells : Cells)
      → Tells opened line cells
      → Tells opened (with_logs logs line) (cells ++ (text "logs", logs_cell logs) ∷ [])
  unfolding with_logs
  Tells-with_logs opened line logs cells h =
      by_test (not (empty logs.sarif) || not (empty logs.rtf))
    where
      by_test :
          (b : Bool)
          → Tells opened
              (if b
                then close_object (
                    nested_text
                      (text "rtf")
                      logs.rtf
                      (nested_text (text "sarif") logs.sarif (open_object (text "logs") line)))
                else line)
              (cells ++ (text "logs", if b then nest (log_cells logs) else none) ∷ [])
      by_test true = Tells-close_object (text "logs") h (
          Nests-nested_text (text "rtf")
            (Nests-nested_text (text "sarif") (Nests-open_object (text "logs") line) logs.sarif)
            logs.rtf)
      by_test false = Tells-left_out (text "logs") h

  Tells-event_line :
      (e : JournalEvent)
      → Tells (line_of (text "event")).so_far (event_line decimal fixed e) (event_cells e)
  unfolding event_line
  Tells-event_line e =
      let a =
        Tells-field_text (text "verb") (Tells-line_of (text "event")) (verb_name e.entry.method) in
      let b = Tells-field_count (text "sequence") a strtod decimal fixed e.sequence in
      let c = Tells-field_text (text "timeUtc") b e.time_utc in
      let d =
        Tells-field_count (text "wallClockMs") c strtod decimal fixed e.wall_clock_unix_millis in
      let f = Tells-field_text (text "group") d e.group in
      let g = Tells-field_text (text "test") f e.test in
      let h = Tells-field_text (text "phase") g e.phase in
      let i = Tells-field_text (text "subject") h e.entry.subject in
      let j = Tells-field_text (text "subjectGroup") i e.entry.subject_group in
      let k = Tells-field_text (text "detail") j e.entry.detail in
      let l = Tells-field_text (text "instrument") k e.entry.instrument in
      let m = Tells-field_text (text "value") l e.entry.value in
      let n = Tells-field_number (text "numeric") m strtod decimal fixed e.entry.numeric in
      let o = Tells-field_text (text "unit") n e.entry.unit in
      let p = Tells-field_text (text "criterionText") o e.entry.criterion_text in
      Tells-field_verdict (text "passed") p e.entry.passed

  pub Tells-line_for :
      (logs : LogFiles) (call : SinkCall)
      → Tells
          (line_of (kind_name call)).so_far
          (line_for decimal fixed logs call)
          (cells_of logs call)
  unfolding line_for
  Tells-line_for logs (on_run_start info) =
      Tells-with_logs _ _ logs _ (Tells-with_info _ _ info (Tells-line_of (text "runStart")))
  Tells-line_for logs (on_group_start group description) =
      Tells-field_text (text "description")
        (Tells-field_text (text "group") (Tells-line_of (text "groupStart")) group) description
  Tells-line_for logs (on_group_end group) =
      Tells-field_text (text "group") (Tells-line_of (text "groupEnd")) group
  Tells-line_for logs (on_test_start test description) =
      Tells-field_text (text "description")
        (Tells-field_text (text "test") (Tells-line_of (text "testStart")) test) description
  Tells-line_for logs (on_phase_start group phase title) =
      Tells-field_text (text "title")
        (Tells-field_text (text "phase")
          (Tells-field_text (text "group") (Tells-line_of (text "phaseStart")) group) phase)
        title
  Tells-line_for logs (on_phase_end phase) =
      Tells-field_text (text "phase") (Tells-line_of (text "phaseEnd")) phase
  Tells-line_for logs (on_event event) = Tells-event_line event
  Tells-line_for logs (on_test_end group test passed) =
      Tells-field_bool (text "passed")
        (Tells-field_text (text "test")
          (Tells-field_text (text "group") (Tells-line_of (text "testEnd")) group) test)
        passed
  Tells-line_for logs (on_run_end all_passed) =
      Tells-field_bool (text "allPassed") (Tells-line_of (text "runEnd")) all_passed
