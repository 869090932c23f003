-- ===== src/Journal/Examples.antt =====
-- The theorems of the journal at concrete runs.
use thorium.Prelude.{◌≡◌, refl, true, false, ℕ, none, some, List, [], ◌∷◌, Text, text, arith}
use thorium.Journal.Records.{verify, note, RunInfo, JournalRecord}
use thorium.Journal.{Journal, begin_test, begin, end_test}
use thorium.Journal.Verdict.{Posts, posts, end_test-verdict}
use thorium.Journal.Sinks.{
  Call, begins_test, posts_record, ends_test, ends, calls, heard_by, occurrences, Numbered,
  calls-same_story, calls-Numbered,
}

abbrev info : RunInfo
info = record {
  framework_name = text "thorium";
  framework_version = [];
  framework_revision = [];
  criteria_variant = text "production";
  criteria_master = [];
  dut_name = [];
  dut_serial = [];
  rig_name = [];
  operator = [];
  host_name = [];
  command_line = [];
  suite_version = [];
  dut_version = [];
  rig_version = [];
  started_utc = [];
  started_local = [];
  bench_attached = false;
  instruments = [];
}

-- A journal with two sinks, before its run.
abbrev two_sinks : Journal
two_sinks = record {
  sinks = 1 ∷ 2 ∷ [];
  run_info = info;
  group = [];
  test = [];
  phase = [];
  next_sequence = 0;
  test_open = false;
  test_checks = 0;
  test_failures = 0;
  heard = [];
  criteria = record { index = 0; locked = false };
}

abbrev rail_check : JournalRecord
rail_check = record {
  method = verify;
  subject = text "3v3";
  subject_group = [];
  detail = [];
  instrument = [];
  value = text "3.31 V";
  numeric = none;
  unit = text "V";
  criterion_text = text "3.3 V";
  passed = some true;
}

abbrev remark : JournalRecord
remark = record rail_check { method = note; passed = none }

abbrev no_clock : ℕ → Text
no_clock now = []

abbrev one_check : Posts
one_check = (5, remark) ∷ (6, rail_check) ∷ []

abbrev history : List Call
history = begins_test (text "rails") [] ∷ posts_record 5 remark ∷ ends_test 6 ∷ ends false ∷ []

end_test-verdict_example :
    (end_test no_clock 7 (posts no_clock one_check (begin_test (text "rails") [] two_sinks))).0
    ≡ true
end_test-verdict_example =
    end_test-verdict no_clock (text "rails") [] one_check 7 two_sinks (omega arith)

once_each : (occurrences 1 two_sinks.sinks ≡ 1) × (occurrences 2 two_sinks.sinks ≡ 1)
unfolding occurrences
once_each = (refl, refl)

calls-same_story_example :
    heard_by 1 (calls no_clock history two_sinks).heard
    ≡ heard_by 2 (calls no_clock history two_sinks).heard
calls-same_story_example =
    calls-same_story no_clock 1 2 history two_sinks (once_each.0) (once_each.1) refl

calls-Numbered_example :
    Numbered 0 (heard_by 1 (calls no_clock history (begin info two_sinks)).heard)
calls-Numbered_example = calls-Numbered no_clock 1 info history two_sinks (once_each.0) refl
