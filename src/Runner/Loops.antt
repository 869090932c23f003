-- ===== src/Runner/Loops.antt =====
-- framework/runner/src/main.cpp: `runSelectedTests`, `runOnePass`, `runPasses`, `runTests` and the part of
-- `main` from `journal().begin` to `journal().end`. The catalog and its hooks are arguments.
use thorium.Prelude.{
  ℕ, zero, suc, ◌+◌, ◌-◌, ◌^◌, Bool, true, false, not, ◌&&◌, none, some, List, [], ◌∷◌, ◌++◌, Text,
  text, text_eq, ◌==◌, any, ltb, if◌then◌else◌,
}
use thorium.Journal.Records.{RunInfo}
use thorium.Journal.{begin, end_run, begin_group, end_group, begin_test, end_test}
use thorium.Control.StopRequest.{StopReason, no_reason, operator, console_gone, arm, disarm}
use thorium.Runner.{
  RunState, ScriptEnd, finished, stop_requested, threw, HookEnd, answered, hook_threw, TestCase,
  Bracket, TestGroup, Options, Progress, running, returned, escaped, is_selected, any_selected,
  setup_phase, with_journal, with_stop, poll, run_hook, post_note, fail, guarded,
}

-- A function that was called has returned to its caller.
abbrev pub called : {W : Type 0} → Progress W → Progress W
called (running passed s) = running passed s
called (returned passed s) = running passed s
called (escaped what passed s) = escaped what passed s

-- `passCount`
unfoldable pub pass_count : Options → ℕ
pass_count options = elim options.repeat [
  | some n ↦ n
  | none ↦ if options.until_failure then 2 ^ 64 - 1 else 1
]

abbrev pub stopped_text : StopReason → Text
stopped_text console_gone = text "stopped: the console that started this run went away"
stopped_text operator = text "stopped by operator"
stopped_text no_reason = text "stopped by operator"

module _ {W : Type 0} (iso : ℕ → Text) (clock : W → ℕ) (options : Options) where
  abbrev pub ended_test : RunState W → Bool × RunState W
  ended_test s =
      let (passed, journal) = end_test iso (clock s.world) s.journal in
      (passed, record s { journal = journal })

  -- `const core::StopArmed armed; test.script();` and what follows each way out of it.
  abbrev pub script_ended : Bool → ScriptEnd × RunState W → Progress W
  script_ended all_passed (finished, s) =
      let (passed, after) = ended_test (with_stop disarm s) in running (all_passed && passed) after
  script_ended all_passed (stop_requested, s) =
      let (_, looked) = poll (with_stop disarm s) in
      let (passed, after) =
        ended_test (fail iso clock (text "stopped by operator before this test finished") looked) in
      returned (all_passed && passed) after
  script_ended all_passed (threw what, s) = escaped what all_passed (with_stop disarm s)

  abbrev pub run_test : TestCase W → Bool → Bool × RunState W → Progress W
  run_test test all_passed (true, s) = returned all_passed s
  run_test test all_passed (false, s) =
      script_ended all_passed
        (test.script (with_stop arm (with_journal (begin_test test.id test.description) s)))

  abbrev pub test_step : TestCase W → Progress W → Progress W
  test_step test (running all_passed s) =
      if is_selected test.id options.selection
      then run_test test all_passed (poll s)
      else running all_passed s
  test_step test (returned all_passed s) = returned all_passed s
  test_step test (escaped what all_passed s) = escaped what all_passed s

  abbrev pub test_loop : List (TestCase W) → Progress W → Progress W
  test_loop [] progress = progress
  test_loop (test ∷ tests) progress = test_loop tests (test_step test progress)

  -- `runSelectedTests`
  unfoldable pub run_selected_tests : List (TestCase W) → Bool → RunState W → Progress W
  run_selected_tests tests all_passed s = called (test_loop tests (running all_passed s))

  -- What follows `runHook( group.setup, kSetupPhase)`.
  abbrev pub group_set_up : TestGroup W → Bool → HookEnd × RunState W → Progress W
  group_set_up group all_passed (answered true, s) = run_selected_tests group.tests all_passed s
  group_set_up group all_passed (answered false, s) =
      if options.skeleton
      then run_selected_tests group.tests false s
      else running false (
          post_note iso clock (text "group")
            (text "SETUP for group '"
              ++ (group.name ++ text "' reported failure; no test in it was run"))
            s)
  group_set_up group all_passed (hook_threw what, s) = escaped what all_passed s

  abbrev pub close_group : Progress W → Progress W
  close_group (running all_passed s) = running all_passed (with_journal end_group s)
  close_group (returned all_passed s) = returned all_passed s
  close_group (escaped what all_passed s) = escaped what all_passed s

  abbrev pub run_group : TestGroup W → Bool → Bool × RunState W → Progress W
  run_group group all_passed (true, s) = returned all_passed s
  run_group group all_passed (false, s) = close_group (
      guarded iso clock group.teardown (text "TEARDOWN for group '" ++ (group.name ++ text "'"))
        (text "group")
        (group_set_up group all_passed (
          run_hook group.setup setup_phase
            (with_journal (begin_group group.name group.description) s))))

  abbrev pub group_step : TestGroup W → Progress W → Progress W
  group_step group (running all_passed s) =
      if any_selected group options.selection
      then run_group group all_passed (poll s)
      else running all_passed s
  group_step group (returned all_passed s) = returned all_passed s
  group_step group (escaped what all_passed s) = escaped what all_passed s

  abbrev pub group_loop : List (TestGroup W) → Progress W → Progress W
  group_loop [] progress = progress
  group_loop (group ∷ groups) progress = group_loop groups (group_step group progress)

  module _ (to_string : ℕ → Text) (catalog : List (TestGroup W)) where
    -- `runOnePass`
    unfoldable pub run_one_pass : RunState W → Progress W
    run_one_pass s = called (group_loop catalog (running true s))

    abbrev pub pass_text : ℕ → ℕ → Text
    pass_text passes pass = elim options.repeat [
      | some _ ↦ text "pass " ++ (to_string (pass + 1) ++ (text " of " ++ to_string passes))
      | none ↦ text "pass " ++ to_string (pass + 1)
    ]

    abbrev pub announced : ℕ → ℕ → RunState W → RunState W
    announced passes pass s =
        if ltb 1 passes then post_note iso clock (text "run") (pass_text passes pass) s else s

    abbrev pub pass_ended : ℕ → Bool → Progress W → Progress W
    pass_ended pass all_passed (running passed s) =
        if not passed && options.until_failure
        then returned (all_passed && passed) (
            post_note iso clock (text "run")
              (text "stopped after failing pass "
                ++ (to_string (pass + 1) ++ text " (--until-failure)"))
              s)
        else running (all_passed && passed) s
    pass_ended pass all_passed (returned passed s) = running (all_passed && passed) s
    pass_ended pass all_passed (escaped what passed s) = escaped what all_passed s

    abbrev pub run_pass : ℕ → ℕ → Bool → Bool × RunState W → Progress W
    run_pass passes pass all_passed (true, s) = returned all_passed s
    run_pass passes pass all_passed (false, s) =
        pass_ended pass all_passed (run_one_pass (announced passes pass s))

    abbrev pub pass_step : ℕ → ℕ → Progress W → Progress W
    pass_step passes pass (running all_passed s) = run_pass passes pass all_passed (poll s)
    pass_step passes pass (returned all_passed s) = returned all_passed s
    pass_step passes pass (escaped what all_passed s) = escaped what all_passed s

    abbrev pub pass_loop : ℕ → ℕ → ℕ → Progress W → Progress W
    pass_loop zero passes pass progress = progress
    pass_loop (suc left) passes pass progress =
        pass_loop left passes (pass + 1) (pass_step passes pass progress)

    -- `if( core::stopHonoured())`
    abbrev pub report_stop : Progress W → Progress W
    report_stop (running all_passed s) =
        if s.stop.stop_honoured
        then running false (post_note iso clock (text "run") (stopped_text s.stop.stop_reason) s)
        else running all_passed s
    report_stop (returned all_passed s) = returned all_passed s
    report_stop (escaped what all_passed s) = escaped what all_passed s

    -- `runPasses`
    unfoldable pub run_passes : Bool → RunState W → Progress W
    run_passes all_passed s =
        report_stop
          (called (pass_loop (pass_count options) (pass_count options) 0 (running all_passed s)))

    -- `unmatchedSelection( …).empty()`
    abbrev pub is_known : Text → Bool
    is_known id = any (λ g. any (λ t. t.id == id) g.tests) catalog

    abbrev pub all_known : List Text → Bool
    all_known [] = true
    all_known (id ∷ ids) = is_known id && all_known ids

    abbrev pub run_set_up : HookEnd × RunState W → Progress W
    run_set_up (answered true, s) = run_passes true s
    run_set_up (answered false, s) =
        if options.skeleton
        then run_passes false s
        else running false (
            post_note iso clock (text "run") (text "RUN_SETUP reported failure; no test was run") s)
    run_set_up (hook_threw what, s) = escaped what true s

    module _ (setup teardown : Bracket W) (safe_rig : RunState W → RunState W) where
      -- `runTests`
      unfoldable pub run_tests : RunState W → Progress W
      run_tests s =
          if all_known options.selection
          then guarded iso clock teardown (text "RUN_TEARDOWN") (text "run")
              (run_set_up (run_hook setup setup_phase s))
          else running false s

      abbrev pub caught : Progress W → Bool × RunState W
      caught (running all_passed s) = (all_passed, s)
      caught (returned all_passed s) = (all_passed, s)
      caught (escaped what all_passed s) = (
        false,
        post_note iso clock (text "run") (text "uncaught exception during test run: " ++ what) s,
      )

      abbrev pub finish : Bool × RunState W → Bool × RunState W
      finish (all_passed, s) = (all_passed, with_journal (end_run all_passed) (safe_rig s))

      -- `main` from `journal().begin( runInfo)` to `journal().end( allPassed)`, without a recording.
      unfoldable pub run_suite : RunInfo → RunState W → Bool × RunState W
      run_suite info s = finish (caught (run_tests (with_journal (begin info) s)))
