-- ===== src/Events/Spelled.antt =====
-- Each line of `EventSink` is a text that `Json::parse` reads, and its fields have different keys.
use thorium.Prelude.{
  ℕ, Bool, true, false, not, ◌||◌, Option, none, some, [], ◌∷◌, ◌++◌, Text, text, text_beq,
  if◌then◌else◌, ◌≡◌, refl, ap, sym, subst, ◌∙◌, arith,
}
use thorium.Json.{json_quoted, json_escape}
use thorium.Json.Parser.{parse}
use thorium.Journal.Records.{
  RunInfo, SinkCall, on_run_start, on_group_start, on_group_end, on_test_start, on_phase_start,
  on_phase_end, on_event, on_test_end, on_run_end,
}
use thorium.Events.{event_of_document, event_of_kind, parse_event}
use thorium.Events.Sink.{Line, LogFiles, empty, line_of, line_text, line_for, verb_name}
use thorium.Events.Written.{Cells, words, figure_if, nest, rendered, Tells}
use thorium.Events.Parsed.{
  Sound, done, ◌also◌, SoundCell, SoundCell-words, SoundCell-verdict, SoundCell-listed,
  SoundCell-figure, SoundCell-nest, parse-rendered, object-Unbroken,
}
use thorium.Events.Reads.{Numeral}
use thorium.Events.Unbroken.{Unbroken}
use thorium.Events.Fields.{cell_found, distinct, at-node_of}
use thorium.Events.Calls.{info_cells, log_cells, logs_cell, kind_name, cells_of, Tells-line_for}

module _ (strtod : Text → ℕ) (decimal fixed : ℕ → Text) where
  -- The numbers of a call are spelled as numbers.
  abbrev pub IfNumeral : Option ℕ → Type 0
  IfNumeral none = Unit
  IfNumeral (some x) = Numeral (fixed x)

  abbrev pub HasNumerals : SinkCall → Type 0
  HasNumerals (on_event e) =
      Numeral (decimal e.sequence)
      × Numeral (decimal e.wall_clock_unix_millis)
      × IfNumeral e.entry.numeric
  HasNumerals _ = Unit

  SoundCell-figure_if : (o : Option ℕ) → IfNumeral o → SoundCell strtod (figure_if strtod fixed o)
  SoundCell-figure_if none h = tt
  SoundCell-figure_if (some x) h = SoundCell-figure strtod (fixed x) h

  SoundCell-logs_cell : (logs : LogFiles) → SoundCell strtod (logs_cell logs)
  SoundCell-logs_cell logs = by_test (not (empty logs.sarif) || not (empty logs.rtf))
    where
      by_test : (b : Bool) → SoundCell strtod (if b then nest (log_cells logs) else none)
      by_test true =
          SoundCell-nest strtod (log_cells logs)
            (SoundCell-words strtod logs.sarif also SoundCell-words strtod logs.rtf also done)
      by_test false = tt

  info_cells-Sound : (info : RunInfo) → Sound strtod (info_cells info)
  info_cells-Sound info =
      (SoundCell-words strtod info.framework_name
        also SoundCell-words strtod info.framework_version
        also SoundCell-words strtod info.framework_revision
        also SoundCell-words strtod info.criteria_variant
        also SoundCell-words strtod info.criteria_master
        also SoundCell-words strtod info.dut_name
        also SoundCell-words strtod info.dut_serial
        also SoundCell-words strtod info.rig_name
        also SoundCell-words strtod info.operator
        also SoundCell-words strtod info.host_name
        also SoundCell-words strtod info.command_line
        also SoundCell-words strtod info.suite_version
        also SoundCell-words strtod info.dut_version
        also SoundCell-words strtod info.rig_version
        also SoundCell-words strtod info.started_utc
        also SoundCell-words strtod info.started_local
        also SoundCell-verdict strtod (some info.bench_attached)
        also SoundCell-listed strtod info.instruments
        also done)

  cells_of-Sound :
      (logs : LogFiles) (call : SinkCall)
      → HasNumerals call
      → Sound strtod (cells_of strtod decimal fixed logs call)
  cells_of-Sound logs (on_run_start info) h =
      (SoundCell-nest strtod (info_cells info) (info_cells-Sound info)
        also SoundCell-logs_cell logs
        also done)
  cells_of-Sound logs (on_group_start group description) h =
      (SoundCell-words strtod group also SoundCell-words strtod description also done)
  cells_of-Sound logs (on_group_end group) h = (SoundCell-words strtod group also done)
  cells_of-Sound logs (on_test_start test description) h =
      (SoundCell-words strtod test also SoundCell-words strtod description also done)
  cells_of-Sound logs (on_phase_start group phase title) h =
      (SoundCell-words strtod group
        also SoundCell-words strtod phase
        also SoundCell-words strtod title
        also done)
  cells_of-Sound logs (on_phase_end phase) h = (SoundCell-words strtod phase also done)
  cells_of-Sound logs (on_event e) h =
      (SoundCell-words strtod (verb_name e.entry.method)
        also SoundCell-figure strtod (decimal e.sequence) h.0
        also SoundCell-words strtod e.time_utc
        also SoundCell-figure strtod (decimal e.wall_clock_unix_millis) h.1
        also SoundCell-words strtod e.group
        also SoundCell-words strtod e.test
        also SoundCell-words strtod e.phase
        also SoundCell-words strtod e.entry.subject
        also SoundCell-words strtod e.entry.subject_group
        also SoundCell-words strtod e.entry.detail
        also SoundCell-words strtod e.entry.instrument
        also SoundCell-words strtod e.entry.value
        also SoundCell-figure_if e.entry.numeric h.2
        also SoundCell-words strtod e.entry.unit
        also SoundCell-words strtod e.entry.criterion_text
        also SoundCell-verdict strtod e.entry.passed
        also done)
  cells_of-Sound logs (on_test_end group test passed) h =
      (SoundCell-words strtod group
        also SoundCell-words strtod test
        also SoundCell-verdict strtod (some passed)
        also done)
  cells_of-Sound logs (on_run_end all_passed) h =
      (SoundCell-verdict strtod (some all_passed) also done)

  abbrev pub whole : LogFiles → SinkCall → Cells
  whole logs call = (text "kind", words (kind_name call)) ∷ cells_of strtod decimal fixed logs call

  whole-distinct : (logs : LogFiles) (call : SinkCall) → distinct (whole logs call) ≡ true
  unfolding text_beq
  whole-distinct logs (on_run_start _) = refl
  whole-distinct logs (on_group_start _ _) = refl
  whole-distinct logs (on_group_end _) = refl
  whole-distinct logs (on_test_start _ _) = refl
  whole-distinct logs (on_phase_start _ _ _) = refl
  whole-distinct logs (on_phase_end _) = refl
  whole-distinct logs (on_event _) = refl
  whole-distinct logs (on_test_end _ _ _) = refl
  whole-distinct logs (on_run_end _) = refl

  kind_name-filled : (call : SinkCall) → empty (kind_name call) ≡ false
  kind_name-filled (on_run_start _) = refl
  kind_name-filled (on_group_start _ _) = refl
  kind_name-filled (on_group_end _) = refl
  kind_name-filled (on_test_start _ _) = refl
  kind_name-filled (on_phase_start _ _ _) = refl
  kind_name-filled (on_phase_end _) = refl
  kind_name-filled (on_event _) = refl
  kind_name-filled (on_test_end _ _ _) = refl
  kind_name-filled (on_run_end _) = refl

  spelled_from :
      (kind : Text) (line : Line) (cells : Cells)
      → empty kind ≡ false
      → Tells (line_of kind).so_far line cells
      → line_text line ≡ b'{' ∷ (rendered ((text "kind", words kind) ∷ cells) ++ text "}")
  unfolding json_quoted json_escape
  spelled_from [] line cells e h = absurd (ground arith)
  spelled_from (c ∷ t) line cells e h = ap (λ u. u ++ text "}") h.text_is

  -- The line of a call is the object of its fields.
  pub line_text-rendered :
      (logs : LogFiles) (call : SinkCall)
      → line_text (line_for decimal fixed logs call)
        ≡ b'{' ∷ (rendered (whole logs call) ++ text "}")
  line_text-rendered logs call =
      spelled_from (kind_name call) (line_for decimal fixed logs call)
        (cells_of strtod decimal fixed logs call) (kind_name-filled call)
        (Tells-line_for strtod decimal fixed logs call)

  whole-Sound :
      (logs : LogFiles) (call : SinkCall) → HasNumerals call → Sound strtod (whole logs call)
  whole-Sound logs call h = SoundCell-words strtod (kind_name call) also cells_of-Sound logs call h

  pub line_text-Unbroken :
      (logs : LogFiles) (call : SinkCall)
      → HasNumerals call
      → Unbroken (line_text (line_for decimal fixed logs call))
  line_text-Unbroken logs call h =
      subst Unbroken (sym (line_text-rendered logs call))
        (object-Unbroken strtod (whole logs call) (whole-Sound logs call h))

  -- What is found in the line of a call is its fields.
  pub parse_event-line_for :
      (logs : LogFiles) (call : SinkCall)
      → HasNumerals call
      → parse_event strtod (line_text (line_for decimal fixed logs call))
        ≡ event_of_kind (cell_found (whole logs call)) (cell_found (whole logs call) (text "kind"))
  unfolding parse_event
  parse_event-line_for logs call h =
      ap (λ t. event_of_document (parse strtod t)) (line_text-rendered logs call)
      ∙ ap event_of_document (parse-rendered strtod (whole logs call) (whole-Sound logs call h))
      ∙ ap (λ found. event_of_kind found (found (text "kind")))
          (at-node_of (whole logs call) (whole-distinct logs call))
