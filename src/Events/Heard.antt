-- ===== src/Events/Heard.antt =====
-- What `parseEvent` makes of the line of each call.
use thorium.Prelude.{
  ℕ, not, ◌||◌, Option, none, some, [], ◌∷◌, Text, text, text_beq, if◌then◌else◌, ◌≡◌, refl, ap,
  sym, ◌∙◌,
}
use thorium.Json.Access.{text_found}
use thorium.Journal.Records.{
  RunInfo, SinkCall, on_run_start, on_group_start, on_group_end, on_test_start, on_phase_start,
  on_phase_end, on_event, on_test_end, on_run_end,
}
use thorium.Events.{
  run_start, group_start, group_end, test_start, test_end, phase_start, phase_end, posted, run_end,
  RunHeader, RunEvent, no_event, kind_from, optional_number, read_header, header_found, log_found,
  parse_event,
}
use thorium.Events.Sink.{LogFiles, empty, line_text, line_for, verb_name}
use thorium.Events.Written.{figure_if, nest}
use thorium.Events.Fields.{
  cell_node, at-node_of, text_found-words, optional_bool-verdict, instruments_of-listed,
}
use thorium.Events.Calls.{info_cells, log_cells, logs_cell}
use thorium.Events.Spelled.{HasNumerals, parse_event-line_for}

-- The header that the event of a run's start carries.
abbrev pub header_of : RunInfo → RunHeader
header_of info = record {
  dut_name = info.dut_name;
  dut_serial = info.dut_serial;
  rig_name = info.rig_name;
  criteria_variant = info.criteria_variant;
  criteria_master = info.criteria_master;
  operator = info.operator;
  started_local = info.started_local;
  command_line = info.command_line;
  instruments = info.instruments;
  bench_attached = info.bench_attached;
}

header_found-info_cells :
    (info : RunInfo) → header_found (cell_node (nest (info_cells info))) ≡ header_of info
unfolding text_beq
header_found-info_cells info =
    ap read_header (at-node_of (info_cells info) refl)
    ∙ simp (text_found-words, instruments_of-listed)

logged :
    (logs : LogFiles)
    → (log_found (text "sarif") (cell_node (nest (log_cells logs))) ≡ logs.sarif)
      × (log_found (text "rtf") (cell_node (nest (log_cells logs))) ≡ logs.rtf)
unfolding text_beq
logged logs =
    let found = at-node_of (log_cells logs) refl in
    (
      ap (λ f. text_found [] (f (text "sarif"))) found ∙ text_found-words logs.sarif,
      ap (λ f. text_found [] (f (text "rtf"))) found ∙ text_found-words logs.rtf,
    )

log_found-logs_cell :
    (logs : LogFiles)
    → (log_found (text "sarif") (cell_node (logs_cell logs)) ≡ logs.sarif)
      × (log_found (text "rtf") (cell_node (logs_cell logs)) ≡ logs.rtf)
log_found-logs_cell logs = by_test logs.sarif logs.rtf refl refl
  where
    by_test :
        (sarif rtf : Text)
        → logs.sarif ≡ sarif
        → logs.rtf ≡ rtf
        → (log_found (text "sarif") (
              cell_node
                (if not (empty sarif) || not (empty rtf) then nest (log_cells logs) else none))
            ≡ logs.sarif)
          × (log_found (text "rtf") (
                cell_node
                  (if not (empty sarif) || not (empty rtf) then nest (log_cells logs) else none))
              ≡ logs.rtf)
    by_test [] [] e f = (sym e, sym f)
    by_test [] (c ∷ t) e f = logged logs
    by_test (c ∷ s) rtf e f = logged logs

-- The event of a call: its fields, and nothing where the line has none.
module _ (strtod : Text → ℕ) (decimal fixed : ℕ → Text) where
  abbrev pub numeric_of : Option ℕ → Option ℕ
  numeric_of none = none
  numeric_of (some x) = some (strtod (fixed x))

  abbrev pub event_for : LogFiles → SinkCall → RunEvent
  event_for logs (on_run_start info) = record no_event {
    which = run_start;
    header = header_of info;
    sarif_log = logs.sarif;
    rtf_log = logs.rtf;
  }
  event_for logs (on_group_start group description) = record no_event {
    which = group_start;
    group = group;
    description = description;
  }
  event_for logs (on_group_end group) = record no_event { which = group_end; group = group }
  event_for logs (on_test_start test description) = record no_event {
    which = test_start;
    test = test;
    description = description;
  }
  event_for logs (on_phase_start group phase title) = record no_event {
    which = phase_start;
    group = group;
    phase = phase;
    title = title;
  }
  event_for logs (on_phase_end phase) = record no_event { which = phase_end; phase = phase }
  event_for logs (on_event e) = record no_event {
    which = posted;
    group = e.group;
    test = e.test;
    phase = e.phase;
    verb = verb_name e.entry.method;
    subject = e.entry.subject;
    subject_group = e.entry.subject_group;
    detail = e.entry.detail;
    instrument = e.entry.instrument;
    value = e.entry.value;
    unit = e.entry.unit;
    criterion_text = e.entry.criterion_text;
    numeric = numeric_of e.entry.numeric;
    passed = e.entry.passed;
  }
  event_for logs (on_test_end group test passed) = record no_event {
    which = test_end;
    group = group;
    test = test;
    passed = some passed;
  }
  event_for logs (on_run_end all_passed) = record no_event {
    which = run_end;
    passed = some all_passed;
  }

  optional_number-figure_if :
      (o : Option ℕ) → optional_number (cell_node (figure_if strtod fixed o)) ≡ numeric_of o
  optional_number-figure_if none = refl
  optional_number-figure_if (some x) = refl

  pub parse_event-sink_line :
      (logs : LogFiles) (call : SinkCall)
      → HasNumerals strtod decimal fixed call
      → parse_event strtod (line_text (line_for decimal fixed logs call))
        ≡ some (event_for logs call)
  unfolding text_beq kind_from
  parse_event-sink_line logs (on_run_start info) h =
      parse_event-line_for strtod decimal fixed logs (on_run_start info) h
      ∙ simp (header_found-info_cells, (log_found-logs_cell logs).0, (log_found-logs_cell logs).1)
  parse_event-sink_line logs (on_group_start group description) h =
      parse_event-line_for strtod decimal fixed logs (on_group_start group description) h
      ∙ simp text_found-words
  parse_event-sink_line logs (on_group_end group) h =
      parse_event-line_for strtod decimal fixed logs (on_group_end group) h ∙ simp text_found-words
  parse_event-sink_line logs (on_test_start test description) h =
      parse_event-line_for strtod decimal fixed logs (on_test_start test description) h
      ∙ simp text_found-words
  parse_event-sink_line logs (on_phase_start group phase title) h =
      parse_event-line_for strtod decimal fixed logs (on_phase_start group phase title) h
      ∙ simp text_found-words
  parse_event-sink_line logs (on_phase_end phase) h =
      parse_event-line_for strtod decimal fixed logs (on_phase_end phase) h ∙ simp text_found-words
  parse_event-sink_line logs (on_event e) h =
      parse_event-line_for strtod decimal fixed logs (on_event e) h
      ∙ simp (text_found-words, optional_number-figure_if, optional_bool-verdict)
  parse_event-sink_line logs (on_test_end group test passed) h =
      parse_event-line_for strtod decimal fixed logs (on_test_end group test passed) h
      ∙ simp text_found-words
  parse_event-sink_line logs (on_run_end all_passed) h =
      parse_event-line_for strtod decimal fixed logs (on_run_end all_passed) h
