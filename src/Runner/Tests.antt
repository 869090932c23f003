-- ===== src/Runner/Tests.antt =====
-- What `runSelectedTests` tells a sink besides records.
use thorium.Prelude.{
  ℕ, ◌≡◌, refl, sym, ap, subst, ◌∙◌, inr, Bool, true, false, ◌&&◌, List, [], ◌∷◌, ◌++◌, Text, text,
  if◌then◌else◌,
}
use mathlib.Core.List.{append-nil, append_assoc}
use thorium.Journal.Records.{SinkCall, on_test_start, on_test_end}
use thorium.Journal.{begin_test, end_test, tell}
use thorium.Journal.Sinks.{occurrences}
use thorium.Journal.Marks.{Marked, Marked-trans, begin_test-Marked, end_test-Marked, end_test-group}
use thorium.Control.StopRequest.{arm, disarm}
use thorium.Runner.{
  RunState, Progress, running, returned, escaped, ScriptEnd, finished, stop_requested, threw,
  TestCase, Options, is_selected, with_journal, with_stop, poll, fail,
}
use thorium.Runner.Loops.{
  ended_test, script_ended, run_test, test_step, test_loop, run_selected_tests,
}
use thorium.Runner.Facts.{
  Quiet, Base, Base-trans, Told, Outcome, Outcome-trans, Outcome-called, Outcome-if, Good-poll,
  Told-refl, Base-refl, poll-Base, poll-requested, poll-stops,
}
use thorium.Runner.Brackets.{fail-Told}

-- The script only posts, and `StopRequested` leaves it only when a stop has been requested.
pub record QuietScript {W : Type 0} (sink : ℕ) (script : RunState W → ScriptEnd × RunState W)
    : Type 0 where
  pub quiet : (s : RunState W) → occurrences sink s.journal.sinks ≡ 1 → Quiet sink s (script s).1
  pub stops :
      (s : RunState W) → (script s).0 ≡ stop_requested → (script s).1.stop.stop_requested ≡ true

abbrev pub QuietTests : {W : Type 0} → ℕ → List (TestCase W) → Type 0
QuietTests sink [] = Unit
QuietTests sink (test ∷ tests) = QuietScript sink test.script × QuietTests sink tests

-- A test that passes.
abbrev pub test_told : {W : Type 0} → Text → TestCase W → List SinkCall
test_told g test = on_test_start test.id test.description ∷ on_test_end g test.id true ∷ []

-- The selected tests, in their order, each of which passes.
abbrev pub tests_told : {W : Type 0} → Options → Text → List (TestCase W) → List SinkCall
tests_told options g [] = []
tests_told options g (test ∷ tests) =
    (if is_selected test.id options.selection then test_told g test else [])
    ++ tests_told options g tests

pub and-both : (a b : Bool) → (a && b) ≡ true → (a ≡ true) × (b ≡ true)
and-both true b e = (refl, e)
and-both false b e = absurd cc

module _ {W : Type 0} (sink : ℕ) (iso : ℕ → Text) (clock : W → ℕ) (options : Options)
    (g : Text) where
  ended_test-Base :
      (s : RunState W)
      → occurrences sink s.journal.sinks ≡ 1
      → Base sink s (ended_test iso clock options s).1
  ended_test-Base s once = record {
    once = (end_test-Marked sink iso (clock s.world) s.journal once).sinks;
    honours = λ e. e;
  }

  -- The test begins, its script posts, and it ends.
  test_between-Told :
      (test : TestCase W) (s t : RunState W)
      → occurrences sink s.journal.sinks ≡ 1
      → Quiet sink (with_stop arm (with_journal (begin_test test.id test.description) s)) t
      → (ended_test iso clock options (with_stop disarm t)).0 ≡ true
      → Told sink g s (ended_test iso clock options (with_stop disarm t)).1 (test_told g test)
  unfolding begin_test tell
  test_between-Told test s t once quiet passed in_group =
      let begun = begin_test-Marked sink test.id test.description s.journal once in
      let quiet_once : occurrences sink t.journal.sinks ≡ 1 =
        ap (occurrences sink) quiet.same_sinks ∙ once in
      let ended = end_test-Marked sink iso (clock t.world) t.journal quiet_once in
      let group : t.journal.group ≡ g = quiet.same_group ∙ in_group in
      (
        Marked-trans sink begun (
            Marked-trans sink
              (record { heard = quiet.same_marks ∙ sym (append-nil _); sinks = quiet_once })
              (subst
                (λ b.
                  Marked sink t.journal (end_test iso (clock t.world) t.journal).1
                    (on_test_end g test.id b ∷ []))
                passed
                (subst
                  (λ x.
                    Marked sink t.journal (end_test iso (clock t.world) t.journal).1
                      (on_test_end g x (end_test iso (clock t.world) t.journal).0 ∷ []))
                  quiet.same_test
                  (subst
                    (λ x. Marked sink t.journal (end_test iso (clock t.world) t.journal).1 (
                      on_test_end x t.journal.test (end_test iso (clock t.world) t.journal).0 ∷ []))
                    group ended)))),
        end_test-group sink iso (clock t.world) t.journal quiet_once ∙ group,
      )

  script_ended-Outcome :
      (test : TestCase W) (p : Bool) (s t : RunState W) (end : ScriptEnd)
      → occurrences sink s.journal.sinks ≡ 1
      → Quiet sink (with_stop arm (with_journal (begin_test test.id test.description) s)) t
      → (end ≡ stop_requested → t.stop.stop_requested ≡ true)
      → Outcome sink g p s (test_told g test) (script_ended iso clock options p (end, t))
  unfolding begin_test tell arm disarm
  script_ended-Outcome test p s t finished once quiet stops =
      let base : Base sink s (with_stop disarm t) = record {
        once = ap (occurrences sink) quiet.same_sinks ∙ once;
        honours = quiet.honours;
      } in
      (
        Base-trans sink base (ended_test-Base (with_stop disarm t) base.once),
        λ e.
            let (before, passed) = and-both p _ e in
            inr (before, test_between-Told test s t once quiet passed),
      )
  script_ended-Outcome test p s t stop_requested once quiet stops =
      let base : Base sink s (with_stop disarm t) = record {
        once = ap (occurrences sink) quiet.same_sinks ∙ once;
        honours = quiet.honours;
      } in
      let polled = poll-Base sink (with_stop disarm t) base.once in
      let (failed, _) =
        fail-Told sink iso clock g (text "stopped by operator before this test finished")
          (poll (with_stop disarm t)).1 polled.once in
      let ended =
        ended_test-Base
          (fail iso clock (text "stopped by operator before this test finished")
            (poll (with_stop disarm t)).1)
          failed.once in
      (
        Base-trans sink base (Base-trans sink polled (Base-trans sink failed ended)),
        λ e. ended.honours (
            failed.honours (
              poll-stops sink (with_stop disarm t)
                (poll-requested (with_stop disarm t) (stops refl)))),
      )
  script_ended-Outcome test p s t (threw what) once quiet stops = record {
    once = ap (occurrences sink) quiet.same_sinks ∙ once;
    honours = quiet.honours;
  }

  run_test-Outcome :
      (test : TestCase W) (p : Bool) (s : RunState W) (stopping : Bool)
      → occurrences sink s.journal.sinks ≡ 1
      → QuietScript sink test.script
      → (stopping ≡ true → s.stop.stop_honoured ≡ true)
      → Outcome sink g p s (test_told g test) (run_test iso clock options test p (stopping, s))
  run_test-Outcome test p s true once q h = (Base-refl sink s once, λ e. h refl)
  run_test-Outcome test p s false once q h =
      let inside = with_stop arm (with_journal (begin_test test.id test.description) s) in
      script_ended-Outcome test p s (test.script inside).1 (test.script inside).0 once
        (q.quiet inside (begin_test-Marked sink test.id test.description s.journal once).sinks)
        (q.stops inside)

  step_told : TestCase W → List SinkCall
  step_told test = if is_selected test.id options.selection then test_told g test else []

  test_step-Outcome :
      (test : TestCase W) (p : Bool) (s : RunState W) (told : List SinkCall) (progress : Progress W)
      → QuietScript sink test.script
      → Outcome sink g p s told progress
      → Outcome sink g p s (told ++ step_told test) (test_step iso clock options test progress)
  unfolding step_told
  test_step-Outcome test p s told (running q t) quiet (b, h) =
      Outcome-if sink g p q s t told (test_told g test) (is_selected test.id options.selection) _
        (b, h)
        (Outcome-trans sink g p q s (poll t).1 told (test_told g test) _
          (Good-poll sink g p q s t told (b, h))
          (run_test-Outcome test q (poll t).1 (poll t).0 (poll-Base sink t b.once).once quiet
            (poll-stops sink t)))
  test_step-Outcome test p s told (returned q t) quiet end = end
  test_step-Outcome test p s told (escaped what q t) quiet end = end

  test_loop-Outcome :
      (tests : List (TestCase W)) (p : Bool) (s : RunState W) (told : List SinkCall)
      (progress : Progress W)
      → QuietTests sink tests
      → Outcome sink g p s told progress
      → Outcome sink g p s
          (told ++ tests_told options g tests)
          (test_loop iso clock options tests progress)
  unfolding step_told
  test_loop-Outcome [] p s told progress quiet end =
      subst (λ xs. Outcome sink g p s xs progress) (sym (append-nil told)) end
  test_loop-Outcome (test ∷ tests) p s told progress (quiet, rest) end =
      subst (λ xs. Outcome sink g p s xs (test_loop iso clock options (test ∷ tests) progress))
        (append_assoc told (step_told test) (tests_told options g tests))
        (test_loop-Outcome tests p s (told ++ step_told test)
          (test_step iso clock options test progress) rest
          (test_step-Outcome test p s told progress quiet end))

  pub run_selected_tests-Outcome :
      (tests : List (TestCase W)) (p : Bool) (s : RunState W)
      → occurrences sink s.journal.sinks ≡ 1
      → QuietTests sink tests
      → Outcome sink g p s
          (tests_told options g tests)
          (run_selected_tests iso clock options tests p s)
  unfolding run_selected_tests
  run_selected_tests-Outcome tests p s once quiet =
      Outcome-called sink g p s (tests_told options g tests) _ (
        test_loop-Outcome tests p s [] (running p s) quiet
          (Base-refl sink s once, λ e. inr (e, Told-refl sink g s once)))
