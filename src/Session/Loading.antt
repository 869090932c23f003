-- ===== src/Session/Loading.antt =====
-- framework/core/include/core/session/recording.hpp (`RecordedValue`, `RecordedSample`) and
-- `ScriptedSession::loadFromFile` of framework/core/src/session/session.cpp, from the samples that
-- `readRecording` makes of the file.
pub mod Rows
pub mod Refusal
pub mod Programs
use thorium.Prelude.{
  ℕ, Bool, true, false, not, ◌&&◌, ◌||◌, List, [], ◌∷◌, ◌++◌, Text, text, text_eq, ◌==◌, any,
  if◌then◌else◌,
}
use thorium.Prelude.Dict.{Dict, lookup, insert}
use thorium.Session.{
  QuantityKind, kind_eq, QuantityVariant, Waveform, Bytes, range_source, ScriptedSession, fresh,
  or_empty, program_kind, program_data, program_flag, program_trace, Slots, program_slot,
}

-- `std::variant<QuantityVariant, Bytes, bool, Waveform>`
pub data RecordedValue : Type 0 where
  reading : QuantityVariant → RecordedValue
  payload : Bytes → RecordedValue
  flag : Bool → RecordedValue
  trace : Waveform → RecordedValue

pub record RecordedSample : Type 0 where
  pub sequence : ℕ
  pub wall_clock_unix_millis : ℕ
  pub test_id : Text
  pub point_name : Text
  pub instrument_id : Text
  pub value : RecordedValue

-- `kRunScope`
abbrev pub run_scope : Text
run_scope = text "<run>"

-- The answers of one seam, collected per point in the file's order.
abbrev pub Sequences : Type 0 → Type 0
Sequences A = Dict Text (List A)

-- `answers[ name].push_back( value)`
abbrev pub push_back : {A : Type 0} → Text → A → Sequences A → Sequences A
push_back name value answers = insert name (or_empty (lookup name answers) ++ value ∷ []) answers

pub record Collected : Type 0 where
  pub samples : Dict QuantityKind (Sequences QuantityVariant)
  pub payloads : Sequences Bytes
  pub flags : Sequences Bool
  pub traces : Sequences Waveform
  pub matched_selection : Bool

abbrev pub nothing_collected : Collected
nothing_collected = record {
  samples = [];
  payloads = [];
  flags = [];
  traces = [];
  matched_selection = false;
}

-- The sorting of one row into the four seams.
abbrev pub sort_in : Text → RecordedValue → Collected → Collected
sort_in name (reading value) c = record c {
  samples =
      insert value.kind (push_back name value (or_empty (lookup value.kind c.samples))) c.samples;
}
sort_in name (payload value) c = record c { payloads = push_back name value c.payloads }
sort_in name (flag value) c = record c { flags = push_back name value c.flags }
sort_in name (trace value) c = record c { traces = push_back name value c.traces }

abbrev pub is_empty : List Text → Bool
is_empty [] = true
is_empty (_ ∷ _) = false

-- `sample.mTestId != kRunScope`
abbrev pub is_scoped : RecordedSample → Bool
is_scoped r = not (r.test_id == run_scope)

-- `std::ranges::find( selection, sample.mTestId) != selection.end()`
abbrev pub is_selected : List Text → RecordedSample → Bool
is_selected selection r = any (λ test. test == r.test_id) selection

-- The body of the loop over the rows.
abbrev pub collect_row : List Text → RecordedSample → Collected → Collected
collect_row selection r c =
    if is_scoped r && not (is_empty selection)
    then (if is_selected selection r
        then sort_in r.point_name r.value (record c { matched_selection = true })
        else c)
    else sort_in r.point_name r.value c

unfoldable pub collect : List Text → List RecordedSample → Collected → Collected
collect selection [] c = c
collect selection (r ∷ rows) c = collect selection rows (collect_row selection r c)

-- The loops that turn each point's answers into a source.
pub program_points : QuantityKind → Sequences QuantityVariant → ScriptedSession → ScriptedSession
program_points kind [] s = s
program_points kind ((name, values) ∷ rest) s =
    program_points kind rest (program_kind name kind (range_source values) s)

pub program_kinds :
    Dict QuantityKind (Sequences QuantityVariant) → ScriptedSession → ScriptedSession
program_kinds [] s = s
program_kinds ((kind, by_point) ∷ rest) s = program_kinds rest (program_points kind by_point s)

pub program_payloads : Sequences Bytes → ScriptedSession → ScriptedSession
program_payloads [] s = s
program_payloads ((name, values) ∷ rest) s =
    program_payloads rest (program_data name (range_source values) s)

pub program_flags : Sequences Bool → ScriptedSession → ScriptedSession
program_flags [] s = s
program_flags ((name, values) ∷ rest) s =
    program_flags rest (program_flag name (range_source values) s)

pub program_traces : Sequences Waveform → ScriptedSession → ScriptedSession
program_traces [] s = s
program_traces ((name, values) ∷ rest) s =
    program_traces rest (program_trace name (range_source values) s)

-- A session, or the `std::runtime_error` that the recording has nothing for the selected tests.
pub data Loaded : Type 0 where
  loaded : ScriptedSession → Loaded
  no_readings_selected : Loaded

pub session_of : Collected → ScriptedSession
session_of c =
    program_traces c.traces
      (program_flags c.flags (program_payloads c.payloads (program_kinds c.samples fresh)))

-- `ScriptedSession::loadFromFile`
unfoldable pub load : List Text → List RecordedSample → Loaded
load selection rows =
    let c = collect selection rows nothing_collected in
    if not (is_empty selection) && not c.matched_selection
    then no_readings_selected
    else loaded (session_of c)
