-- ===== src/Events.antt =====
-- framework/webui/src/protocol/events.cpp: `parseEvent`, which decodes one line of a run, and
-- `EventStream::consume`, which cuts what a pipe delivers into lines. Sink is the writer of those
-- lines, framework/core/src/journal/event_sink.cpp. `strtod` is an argument.
pub mod Sink
pub mod Stream
pub mod Written
pub mod Nested
pub mod Unbroken
pub mod Reads
pub mod Arrays
pub mod Parsed
pub mod Fields
pub mod Calls
pub mod Spelled
pub mod Heard
pub mod Refused
pub mod NotFinite
pub mod Watched
mod Examples
use thorium.Prelude.{
  ℕ, Bool, true, false, Option, none, some, List, [], ◌∷◌, ◌++◌, Text, text, text_eq, ◌==◌, eqb,
  if◌then◌else◌,
}
use thorium.Json.Parser.{
  Json, null, boolean, number, string, array, object, Items, no_items, item, parse,
}
use thorium.Json.Access.{text_of, items_of, at, text_found, boolean_at, text_at, boolean_found}

pub data Kind : Type 0 where
  run_start group_start group_end test_start test_end phase_start phase_end : Kind
  posted run_end unknown_kind : Kind

pub record RunHeader : Type 0 where
  pub dut_name : Text
  pub dut_serial : Text
  pub rig_name : Text
  pub criteria_variant : Text
  pub criteria_master : Text
  pub operator : Text
  pub started_local : Text
  pub command_line : Text
  pub instruments : List Text
  pub bench_attached : Bool

pub record RunEvent : Type 0 where
  pub which : Kind
  pub group : Text
  pub test : Text
  pub phase : Text
  pub description : Text
  pub title : Text
  pub verb : Text
  pub subject : Text
  pub subject_group : Text
  pub detail : Text
  pub instrument : Text
  pub value : Text
  pub unit : Text
  pub criterion_text : Text
  pub numeric : Option ℕ
  pub passed : Option Bool
  pub header : RunHeader
  pub sarif_log : Text
  pub rtf_log : Text

abbrev pub no_header : RunHeader
no_header = record {
  dut_name = [];
  dut_serial = [];
  rig_name = [];
  criteria_variant = [];
  criteria_master = [];
  operator = [];
  started_local = [];
  command_line = [];
  instruments = [];
  bench_attached = true;
}

-- `RunEvent event;`
abbrev pub no_event : RunEvent
no_event = record {
  which = unknown_kind;
  group = [];
  test = [];
  phase = [];
  description = [];
  title = [];
  verb = [];
  subject = [];
  subject_group = [];
  detail = [];
  instrument = [];
  value = [];
  unit = [];
  criterion_text = [];
  numeric = none;
  passed = none;
  header = no_header;
  sarif_log = [];
  rtf_log = [];
}

unfoldable pub kind_from : Text → Kind
kind_from name =
    if name == text "runStart"
    then run_start
    else if name == text "groupStart"
    then group_start
    else if name == text "groupEnd"
    then group_end
    else if name == text "testStart"
    then test_start
    else if name == text "testEnd"
    then test_end
    else if name == text "phaseStart"
    then phase_start
    else if name == text "phaseEnd"
    then phase_end
    else if name == text "event"
    then posted
    else if name == text "runEnd"
    then run_end
    else unknown_kind

abbrev pub optional_bool : Option Json → Option Bool
optional_bool (some (boolean b)) = some b
optional_bool _ = none

abbrev pub optional_number : Option Json → Option ℕ
optional_number (some (number bits)) = some bits
optional_number _ = none

-- `line->text()` of each item.
abbrev pub texts_of : Items → List Text
texts_of no_items = []
texts_of (item node rest) = text_of [] node ∷ texts_of rest

abbrev pub instruments_of : Option Json → List Text
instruments_of none = []
instruments_of (some node) = texts_of (items_of node)

-- The fields of an object, by key.
abbrev pub Found : Type 0
Found = Text → Option Json

abbrev pub read_header : Found → RunHeader
read_header info = record {
  dut_name = text_found [] (info (text "dutName"));
  dut_serial = text_found [] (info (text "dutSerial"));
  rig_name = text_found [] (info (text "rigName"));
  criteria_variant = text_found [] (info (text "criteriaVariant"));
  criteria_master = text_found [] (info (text "criteriaMaster"));
  operator = text_found [] (info (text "operator"));
  started_local = text_found [] (info (text "startedLocal"));
  command_line = text_found [] (info (text "commandLine"));
  instruments = instruments_of (info (text "instruments"));
  bench_attached = boolean_found true (info (text "benchAttached"));
}

abbrev pub header_found : Option Json → RunHeader
header_found none = no_header
header_found (some info) = read_header (λ key. at key info)

abbrev pub log_found : Text → Option Json → Text
log_found key none = []
log_found key (some logs) = text_at key [] logs

-- `event.Which == RunEvent::Kind::RunEnd ? "allPassed" : "passed"`
abbrev pub verdict_key : Kind → Text
verdict_key run_end = text "allPassed"
verdict_key _ = text "passed"

abbrev pub at_run_start : {A : Type 0} → Kind → A → A → A
at_run_start run_start told default = told
at_run_start _ told default = default

abbrev pub event_from : Kind → Found → RunEvent
event_from kind document = record {
  which = kind;
  group = text_found [] (document (text "group"));
  test = text_found [] (document (text "test"));
  phase = text_found [] (document (text "phase"));
  description = text_found [] (document (text "description"));
  title = text_found [] (document (text "title"));
  verb = text_found [] (document (text "verb"));
  subject = text_found [] (document (text "subject"));
  subject_group = text_found [] (document (text "subjectGroup"));
  detail = text_found [] (document (text "detail"));
  instrument = text_found [] (document (text "instrument"));
  value = text_found [] (document (text "value"));
  unit = text_found [] (document (text "unit"));
  criterion_text = text_found [] (document (text "criterionText"));
  numeric = optional_number (document (text "numeric"));
  passed = optional_bool (document (verdict_key kind));
  header = at_run_start kind (header_found (document (text "info"))) no_header;
  sarif_log = at_run_start kind (log_found (text "sarif") (document (text "logs"))) [];
  rtf_log = at_run_start kind (log_found (text "rtf") (document (text "logs"))) [];
}

abbrev pub event_of_kind : Found → Option Json → Option RunEvent
event_of_kind document none = none
event_of_kind document (some name) = some (event_from (kind_from (text_of [] name)) document)

abbrev pub event_of_document : Option Json → Option RunEvent
event_of_document (some (object known)) =
    event_of_kind (λ key. at key (object known)) (at (text "kind") (object known))
event_of_document _ = none

module _ (strtod : Text → ℕ) where
  unfoldable pub parse_event : Text → Option RunEvent
  parse_event line = event_of_document (parse strtod line)
