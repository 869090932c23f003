-- ===== src/Runner/Examples.antt =====
-- The theorems of a run at a suite of two groups, whose tests each post a check that passes.
use thorium.Prelude.{
  ℕ, ◌≡◌, refl, ◌∙◌, Bool, true, false, none, some, List, [], ◌∷◌, ◌++◌, Text, text, arith,
  text_beq, if◌then◌else◌,
}
use mathlib.Core.List.{append-nil}
use thorium.Journal.Records.{RunInfo, JournalRecord, verify, on_run_start, on_run_end}
use thorium.Journal.{
  Journal, post, tell, counted, begin, begin_group, end_group, begin_test, end_test, check_any,
  close_test, begin_phase, end_phase, end_run,
}
use thorium.Journal.Sinks.{occurrences, post-heard}
use thorium.Journal.Marks.{marks, post-Marked}
use thorium.Control.StopRequest.{no_reason, operator, arm, disarm, stop_now}
use thorium.Runner.{
  RunState, ScriptEnd, finished, stop_requested, HookEnd, answered, Bracket, TestGroup, Options,
  setup_phase, teardown_phase, posted, post_note, poll, run_hook, tear_down, any_selected,
  is_selected,
}
use thorium.Runner.Loops.{
  pass_count, run_selected_tests, run_one_pass, run_passes, all_known, run_tests, run_suite,
}
use thorium.Runner.Facts.{Quiet}
use thorium.Runner.Brackets.{phase_of}
use thorium.Runner.Tests.{QuietScript}
use thorium.Runner.Groups.{groups_told}
use thorium.Runner.Passes.{passes_told}
use thorium.Runner.Verdicts.{run_suite-passed}
use thorium.Runner.Stops.{Failed, run_passes-stopped}

abbrev info : RunInfo
info = record {
  framework_name = text "thorium";
  framework_version = [];
  framework_revision = [];
  criteria_variant = text "production";
  criteria_master = [];
  dut_name = [];
  dut_serial = [];
  rig_name = [];
  operator = [];
  host_name = [];
  command_line = [];
  suite_version = [];
  dut_version = [];
  rig_version = [];
  started_utc = [];
  started_local = [];
  bench_attached = true;
  instruments = [];
}

abbrev pub idle : RunState ℕ
idle = record {
  journal = record {
    sinks = 1 ∷ [];
    run_info = info;
    group = [];
    test = [];
    phase = [];
    next_sequence = 0;
    test_open = false;
    test_checks = 0;
    test_failures = 0;
    heard = [];
    criteria = record { index = 0; locked = false };
  };
  stop = record {
    stop_requested = false;
    stop_reason = no_reason;
    stop_honoured = false;
    stop_armed = 0;
  };
  arrivals = none ∷ [];
  world = 5;
}

abbrev stopped : RunState ℕ
stopped = record idle { stop = record idle.stop { stop_requested = true; stop_reason = operator } }

abbrev iso : ℕ → Text
iso now = []

abbrev clock : ℕ → ℕ
clock now = now

abbrev to_string : ℕ → Text
to_string n = text "#"

abbrev rail_check : JournalRecord
rail_check = record {
  method = verify;
  subject = text "3v3";
  subject_group = [];
  detail = [];
  instrument = [];
  value = text "3.31 V";
  numeric = none;
  unit = text "V";
  criterion_text = text "3.3 V";
  passed = some true;
}

-- It polls for a stop, as a delay does.
abbrev script : RunState ℕ → ScriptEnd × RunState ℕ
script s =
    (if s.stop.stop_requested then stop_requested else finished, posted iso clock rail_check s)

abbrev hook : RunState ℕ → HookEnd × RunState ℕ
hook s = (answered true, s)

abbrev no_hook : Bracket ℕ
no_hook = record { hook = none; description = [] }

abbrev power_up : Bracket ℕ
power_up = record { hook = some hook; description = text "power up" }

abbrev catalog : List (TestGroup ℕ)
catalog =
    record {
      name = text "rails";
      description = [];
      tests =
          record { id = text "3v3"; description = []; script = script }
          ∷ record { id = text "5v0"; description = []; script = script }
          ∷ [];
      setup = power_up;
      teardown = no_hook;
    }
    ∷ record {
      name = text "uart";
      description = [];
      tests = record { id = text "echo"; description = []; script = script } ∷ [];
      setup = no_hook;
      teardown = no_hook;
    }
    ∷ []

abbrev options : Options
options = record {
  selection = text "5v0" ∷ text "echo" ∷ [];
  repeat = some 2;
  until_failure = false;
  skeleton = false;
}

abbrev safe_rig : RunState ℕ → RunState ℕ
safe_rig s = s

same-Quiet : (s : RunState ℕ) → Quiet 1 s s
same-Quiet s = record {
  same_marks = refl;
  same_sinks = refl;
  same_group = refl;
  same_test = refl;
  same_phase = refl;
  honours = λ e. e;
}

post-phase : (now : ℕ) (j : Journal) → (post iso now rail_check j).phase ≡ j.phase
unfolding post tell counted
post-phase now j = ground arith

stops_when :
    (requested : Bool)
    → (if requested then stop_requested else finished) ≡ stop_requested
    → requested ≡ true
stops_when true e = refl
stops_when false e = absurd cc

script-Quiet : QuietScript 1 script
script-Quiet = record {
  quiet = λ s once.
      let (_, sinks, group, test) = post-heard iso 1 (clock s.world) rail_check s.journal once in
      record {
        same_marks =
            (post-Marked 1 iso (clock s.world) rail_check s.journal once).heard ∙ append-nil _;
        same_sinks = sinks;
        same_group = group;
        same_test = test;
        same_phase = post-phase (clock s.world) s.journal;
        honours = λ e. e;
      };
  stops = λ s e. stops_when s.stop.stop_requested e;
}

one_sink : occurrences 1 idle.journal.sinks ≡ 1
unfolding occurrences
one_sink = refl

all_pass :
    (run_suite iso clock options to_string catalog power_up no_hook safe_rig info idle).0 ≡ true
unfolding run_suite run_tests run_passes run_one_pass run_selected_tests pass_count poll run_hook
    tear_down stop_now arm disarm begin begin_group end_group begin_test end_test check_any
    close_test begin_phase end_phase end_run post tell counted post_note text_beq any_selected
    is_selected
all_pass = refl

run_suite-passed_example :
    (all_known iso clock options to_string catalog options.selection ≡ true)
    × (marks 1
          (run_suite iso clock options to_string catalog power_up no_hook safe_rig info
            idle).1.journal
        ≡ on_run_start info
          ∷ (phase_of [] setup_phase power_up
              ++ passes_told (pass_count options) (groups_told options catalog)
              ++ phase_of [] teardown_phase no_hook
              ++ on_run_end true ∷ []))
run_suite-passed_example =
    run_suite-passed 1 iso clock options to_string catalog power_up no_hook safe_rig info idle
      one_sink refl
      (
        (λ s once. same-Quiet s, (script-Quiet, (script-Quiet, tt)), tt),
        ((tt, (script-Quiet, tt), tt), tt),
      )
      (λ s once. same-Quiet s) tt (λ s once. same-Quiet s) all_pass

two_passes : pass_count options ≡ 2
unfolding pass_count
two_passes = refl

run_passes-stopped_example :
    Failed
      (λ t. marks 1 t.journal ≡ marks 1 stopped.journal)
      (run_passes iso clock options to_string catalog true stopped)
run_passes-stopped_example =
    run_passes-stopped iso clock options to_string catalog 1 true stopped 1 two_passes refl one_sink
