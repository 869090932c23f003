-- ===== src/Journal.antt =====
-- framework/core/include/core/journal/journal.hpp and framework/core/src/journal/journal.cpp: class
-- `Journal`. A text is its bytes and a `double` its bit pattern. The wall clock and its ISO spelling
-- are arguments of each post. Counters have 64 bits. The state holds what every sink has been told,
-- and the selection of a criteria variant, which `begin` locks.
pub mod Records
pub mod Verdict
pub mod Sinks
pub mod Marks
mod Examples
use thorium.Prelude.{
  ℕ, ◌+◌, ◌%◌, ◌^◌, ◌-◌, Bool, true, false, not, ◌&&◌, Option, none, some, List, [], ◌∷◌, ◌++◌,
  Text, text, eqb, ltb, if◌then◌else◌, length, take,
}
use thorium.Criteria.Variants.{Selection, lock_criteria_variant}
use Records.{
  Verb, verify, RunInfo, JournalRecord, JournalEvent, SinkCall, on_run_start, on_group_start,
  on_group_end, on_test_start, on_phase_start, on_phase_end, on_event, on_test_end, on_run_end,
}

-- A sink is known by the number that stands for its address.
pub record Journal : Type 0 where
  pub sinks : List ℕ
  pub run_info : RunInfo
  pub group : Text
  pub test : Text
  pub phase : Text
  pub next_sequence : ℕ
  pub test_open : Bool
  pub test_checks : ℕ
  pub test_failures : ℕ
  pub heard : List (ℕ × SinkCall)
  pub criteria : Selection

abbrev pub size_mod : ℕ
size_mod = 2 ^ 64

-- `for( auto * sink : mSinks) sink->on…( …)`
pub deliver : List ℕ → SinkCall → List (ℕ × SinkCall)
deliver [] told = []
deliver (s ∷ sinks) told = (s, told) ∷ deliver sinks told

unfoldable pub tell : SinkCall → Journal → Journal
tell told j = record j { heard = j.heard ++ deliver j.sinks told }

pub add : ℕ → Journal → Journal
add sink j = record j { sinks = j.sinks ++ sink ∷ [] }

pub clear_sinks : Journal → Journal
clear_sinks j = record j { sinks = [] }

unfoldable pub begin : RunInfo → Journal → Journal
begin info j = tell (on_run_start info) (record j {
  criteria = lock_criteria_variant j.criteria;
  run_info = info;
  next_sequence = 0;
  group = [];
  test = [];
  phase = [];
})

-- `Journal::end`
unfoldable pub end_run : Bool → Journal → Journal
end_run all_passed j = tell (on_run_end all_passed) j

unfoldable pub begin_group : Text → Text → Journal → Journal
begin_group group description j =
    tell (on_group_start group description) (record j { group = group })

unfoldable pub end_group : Journal → Journal
end_group j = record (tell (on_group_end j.group) j) { group = [] }

unfoldable pub begin_test : Text → Text → Journal → Journal
begin_test test description j =
    tell (on_test_start test description)
      (record j { test = test; test_open = true; test_checks = 0; test_failures = 0 })

unfoldable pub begin_phase : Text → Text → Journal → Journal
begin_phase phase title j = tell (on_phase_start j.group phase title) (record j { phase = phase })

unfoldable pub end_phase : Journal → Journal
end_phase j = record (tell (on_phase_end j.phase) j) { phase = [] }

abbrev pub max_journal_value_length : ℕ
max_journal_value_length = 120

-- The backstop on the value column.
pub abridged : Text → Text
abridged value =
    if ltb max_journal_value_length (length value)
    then take (max_journal_value_length - 3) value ++ text "..."
    else value

-- `++mTestChecks`, and `++mTestFailures` on a failed check.
unfoldable pub counted : Option Bool → Journal → Journal
counted none j = j
counted (some passed) j =
    if j.test_open
    then record j {
      test_checks = (j.test_checks + 1) % size_mod;
      test_failures = if passed then j.test_failures else (j.test_failures + 1) % size_mod;
    }
    else j

-- What `endTest` posts of a test that checked nothing.
pub unchecked : JournalRecord
unchecked = record {
  method = verify;
  subject = [];
  subject_group = [];
  detail = text "no check was recorded -- a test that verified nothing cannot pass";
  instrument = [];
  value = text "<unchecked>";
  numeric = none;
  unit = [];
  criterion_text = [];
  passed = some false;
}

unfoldable pub close_test : Bool → Journal → Journal
close_test passed j =
    record (tell (on_test_end j.group j.test passed) (record j { test_open = false })) { test = [] }

module _ (iso : ℕ → Text) where
  pub event_of : ℕ → JournalRecord → Journal → JournalEvent
  event_of now r j = record {
    entry = r;
    sequence = j.next_sequence;
    wall_clock_unix_millis = now;
    time_utc = iso now;
    group = j.group;
    test = j.test;
    phase = j.phase;
  }

  unfoldable pub post : ℕ → JournalRecord → Journal → Journal
  post now r j =
      let kept = record r { value = abridged r.value } in
      let after = counted r.passed j in
      tell (on_event (event_of now kept j))
        (record after { next_sequence = (j.next_sequence + 1) % size_mod })

  unfoldable pub check_any : ℕ → Journal → Journal
  check_any now j = if j.test_open && eqb j.test_checks 0 then post now unchecked j else j

  unfoldable pub end_test : ℕ → Journal → Bool × Journal
  end_test now j =
      let after = check_any now j in
      let passed = ltb 0 after.test_checks && eqb after.test_failures 0 in
      (passed, close_test passed after)
