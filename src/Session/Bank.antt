-- ===== src/Session/Bank.antt =====
-- framework/core/include/core/session/session.hpp and framework/core/src/session/session.cpp:
-- `LiveSession`, `PlaceholderSession`, `SwitchableSession`, `RecordingSession` and `SessionBank`. What
-- an instrument's read gives, the test that the journal says is running, the clock and whether a bench
-- is attached are arguments of a fetch. What a `RecordingWriter` was given is kept in the state.
pub mod Runs
pub mod Roundtrip
use thorium.Prelude.{
  ℕ, ◌+◌, ◌%◌, ◌^◌, Bool, true, false, Option, none, some, List, [], ◌∷◌, ◌++◌, Text, if◌then◌else◌,
}
use thorium.Session.{
  QuantityKind, QuantityVariant, Waveform, Bytes, Fetched, fetched, nothing_programmed, none_left,
  no_bench, read_failed, kind_mismatch, ScriptedSession, fresh, constant_source, program_value,
  program_kind, program, program_data, program_flag, program_trace, fetch, fetch_data, fetch_flag,
  fetch_trace,
}
use thorium.Session.Loading.{
  RecordedValue, reading, payload, flag, trace, RecordedSample, run_scope, Loaded, loaded,
  no_readings_selected, load,
}

-- What a fetch finds around it.
pub record Situation : Type 0 where
  pub bench_attached : Bool
  pub running_test : Text
  pub now_millis : ℕ

-- `LiveSession`: `requireBench`, then `liveRead`.
abbrev pub live_fetch : {A : Type 0} → Bool → Fetched A → Fetched A
live_fetch attached live_read = if attached then live_read else no_bench

-- `PlaceholderSession`
abbrev pub placeholder_reading : QuantityKind → QuantityVariant
placeholder_reading kind = record { kind = kind; amount = 0 }

abbrev pub placeholder_trace : Waveform
placeholder_trace = record { unit = 0; origin = 0; increment = 0; samples = [] }

-- What `SwitchableSession` points to.
pub data Current : Type 0 where
  to_live to_scripted to_placeholder : Current

-- `RecordingSession`
pub record Recorder : Type 0 where
  pub next_sequence : ℕ
  pub samples : List RecordedSample
  pub streaming : Bool
  pub written : List RecordedSample

pub record SessionBank : Type 0 where
  pub scripted : ScriptedSession
  pub current : Current
  pub recorder : Recorder
  pub recording : Bool

abbrev pub size_mod : ℕ
size_mod = 2 ^ 64

-- `runningTest.empty() ? kRunScope : runningTest`
abbrev pub scope_of : Text → Text
scope_of [] = run_scope
scope_of (c ∷ cs) = c ∷ cs

-- `RecordingSession::record`
unfoldable pub record_sample : Situation → Text → Text → RecordedValue → Recorder → Recorder
record_sample here name instrument_id value recorder =
    let sample : RecordedSample = record {
      sequence = recorder.next_sequence;
      wall_clock_unix_millis = here.now_millis;
      test_id = scope_of here.running_test;
      point_name = name;
      instrument_id = instrument_id;
      value = value;
    } in
    let counted : Recorder = record recorder {
      next_sequence = (recorder.next_sequence + 1) % size_mod;
    } in
    if recorder.streaming
    then record counted { written = recorder.written ++ sample ∷ [] }
    else record counted { samples = recorder.samples ++ sample ∷ [] }

-- The dispatch on `mCurrent`, with what each of the three sessions answers.
abbrev pub switched :
    {A : Type 0}
    → Current
    → Fetched A
    → A
    → Fetched A × ScriptedSession
    → SessionBank
    → Fetched A × SessionBank
switched to_live live placeholder scripted b = (live, b)
switched to_placeholder live placeholder scripted b = (fetched placeholder, b)
switched to_scripted live placeholder (value, after) b = (value, record b { scripted = after })

-- `mCurrent->fetch`, and its three siblings.
abbrev pub switch_fetch :
    Situation
    → Text
    → QuantityKind
    → Fetched QuantityVariant
    → SessionBank
    → Fetched QuantityVariant × SessionBank
switch_fetch here name kind live_read b =
    switched b.current (live_fetch here.bench_attached live_read) (placeholder_reading kind)
      (fetch name kind b.scripted) b

abbrev pub switch_fetch_data :
    Situation → Text → Fetched Bytes → SessionBank → Fetched Bytes × SessionBank
switch_fetch_data here name live_read b =
    switched b.current (live_fetch here.bench_attached live_read) [] (fetch_data name b.scripted) b

abbrev pub switch_fetch_flag :
    Situation → Text → Fetched Bool → SessionBank → Fetched Bool × SessionBank
switch_fetch_flag here name live_read b =
    switched b.current (live_fetch here.bench_attached live_read) true (fetch_flag name b.scripted)
      b

abbrev pub switch_fetch_trace :
    Situation → Text → Fetched Waveform → SessionBank → Fetched Waveform × SessionBank
switch_fetch_trace here name live_read b =
    switched b.current (live_fetch here.bench_attached live_read) placeholder_trace
      (fetch_trace name b.scripted) b

-- What `RecordingSession` does with the value that its inner session gave; an exception leaves
-- before anything is recorded.
abbrev pub record_fetched :
    {A : Type 0} → Situation → Text → Text → (A → RecordedValue) → Fetched A → Recorder → Recorder
record_fetched here name instrument_id make (fetched value) recorder =
    record_sample here name instrument_id (make value) recorder
record_fetched here name instrument_id make nothing_programmed recorder = recorder
record_fetched here name instrument_id make none_left recorder = recorder
record_fetched here name instrument_id make no_bench recorder = recorder
record_fetched here name instrument_id make read_failed recorder = recorder
record_fetched here name instrument_id make (kind_mismatch programmed expected) recorder = recorder

-- The fetch through `SessionBank::active`.
abbrev pub through_active :
    {A : Type 0}
    → Situation
    → Text
    → Text
    → (A → RecordedValue)
    → Fetched A × SessionBank
    → Fetched A × SessionBank
through_active here name instrument_id make (value, b) = (
  value,
  if b.recording
      then record b { recorder = record_fetched here name instrument_id make value b.recorder }
      else b,
)

-- The operations of `SessionBank`.
pub inject : Text → QuantityVariant → SessionBank → SessionBank
inject name value b = record b {
  scripted = program_value name value b.scripted;
  current = to_scripted;
}

pub inject_kind : Text → QuantityKind → (ℕ → Option QuantityVariant) → SessionBank → SessionBank
inject_kind name kind source b = record b {
  scripted = program_kind name kind source b.scripted;
  current = to_scripted;
}

pub inject_source : Text → (ℕ → Option QuantityVariant) → SessionBank → SessionBank
inject_source name source b = record b {
  scripted = program name source b.scripted;
  current = to_scripted;
}

unfoldable pub inject_data : Text → (ℕ → Option Bytes) → SessionBank → SessionBank
inject_data name source b = record b {
  scripted = program_data name source b.scripted;
  current = to_scripted;
}

pub inject_flag : Text → (ℕ → Option Bool) → SessionBank → SessionBank
inject_flag name source b = record b {
  scripted = program_flag name source b.scripted;
  current = to_scripted;
}

pub inject_trace : Text → (ℕ → Option Waveform) → SessionBank → SessionBank
inject_trace name source b = record b {
  scripted = program_trace name source b.scripted;
  current = to_scripted;
}

-- `SessionBank::load`: whether it returned, and the bank.
pub load_recording : List Text → List RecordedSample → SessionBank → Bool × SessionBank
load_recording selection rows b = elim (load selection rows) [
  | loaded s ↦ (true, record b { scripted = s; current = to_scripted })
  | no_readings_selected ↦ (false, b)
]

pub use_live : SessionBank → SessionBank
use_live b = record b { current = to_live; scripted = fresh }

pub use_placeholders : SessionBank → SessionBank
use_placeholders b = record b { scripted = fresh; current = to_placeholder }

pub start_recording : SessionBank → SessionBank
start_recording b = record b { recording = true }

-- `startRecording( writer)`
pub start_streaming : SessionBank → SessionBank
start_streaming b = record b {
  recorder = record b.recorder { streaming = true; written = [] };
  recording = true;
}

pub stop_recording : SessionBank → SessionBank
stop_recording b = record b { recording = false }

-- `SessionBank::dump`: the samples that are written out, or the `std::logic_error`.
pub dump : SessionBank → Option (List RecordedSample)
dump b = if b.recorder.streaming then none else some b.recorder.samples
