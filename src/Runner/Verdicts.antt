-- ===== src/Runner/Verdicts.antt =====
-- The verdict of a run against what its sinks were told: `runTests` and `main`.
use thorium.Prelude.{
  ℕ, ◌≡◌, refl, ap, ◌∙◌, Bool, true, false, List, [], ◌∷◌, ◌++◌, Text, text, if◌then◌else◌,
}
use thorium.Journal.Records.{RunInfo, SinkCall, on_run_start, on_run_end}
use thorium.Journal.{begin}
use thorium.Journal.Sinks.{occurrences}
use thorium.Journal.Marks.{marks, begin-marks, end_run-Marked}
use thorium.Runner.{
  RunState, Progress, running, returned, escaped, HookEnd, answered, hook_threw, Bracket, TestGroup,
  Options, setup_phase, teardown_phase, tear_down, with_journal, run_hook, post_note, guarded,
}
use thorium.Runner.Loops.{pass_count, all_known, run_set_up, run_tests, caught, run_suite}
use thorium.Runner.Facts.{Quiet, Base, Base-trans, Told, Base-refl, Quiet-Base}
use thorium.Runner.Brackets.{QuietHook, phase_of, run_hook-Told, post_note-Told, tear_down-Kept}
use thorium.Runner.Groups.{QuietGroups, groups_told}
use thorium.Runner.Passes.{passes_told, Sure, Sure-trans, Kept-trans, run_passes-Sure}

module _ {W : Type 0} (sink : ℕ) (iso : ℕ → Text) (clock : W → ℕ) (options : Options)
    (to_string : ℕ → Text) (catalog : List (TestGroup W)) where
  abbrev passes : List SinkCall
  passes = passes_told (pass_count options) (groups_told options catalog)

  abbrev Surely : Bool → RunState W → List SinkCall → Progress W → Type 0
  Surely p s told progress = Sure sink iso clock options to_string catalog [] p s told progress

  refused-Sure :
      (p : Bool) (s t : RunState W) (xs : List SinkCall) (subject detail : Text)
      → Base sink s t
      → Surely p s xs (running false (post_note iso clock subject detail t))
  refused-Sure p s t xs subject detail b = (
    Base-trans sink b (post_note-Told sink iso clock [] subject detail t b.once).0,
    λ e. absurd cc,
  )

  either-Sure :
      (p : Bool) (s : RunState W) (xs : List SinkCall) (test : Bool) (first second : Progress W)
      → Surely p s xs first
      → Surely p s xs second
      → Surely p s xs (if test then first else second)
  either-Sure p s xs true first second of_first of_second = of_first
  either-Sure p s xs false first second of_first of_second = of_second

  run_set_up-Sure :
      (s t : RunState W) (xs : List SinkCall) (end : HookEnd)
      → QuietGroups sink catalog
      → Base sink s t
      → Told sink [] s t xs
      → Surely true s (xs ++ passes) (run_set_up iso clock options to_string catalog (end, t))
  run_set_up-Sure s t xs (answered true) quiet b told =
      Sure-trans sink iso clock options to_string catalog true true s t xs passes _ b
        (λ e. (refl, told))
        (run_passes-Sure sink iso clock options to_string catalog true t b.once quiet)
  run_set_up-Sure s t xs (answered false) quiet b told =
      either-Sure true s (xs ++ passes) options.skeleton _ _
        (Sure-trans sink iso clock options to_string catalog true false s t xs passes _ b
          (λ e. absurd cc)
          (run_passes-Sure sink iso clock options to_string catalog false t b.once quiet))
        (refused-Sure true s t (xs ++ passes) _ _ b)
  run_set_up-Sure s t xs (hook_threw what) quiet b told = b

  guarded-Sure :
      (label subject : Text) (bracket : Bracket W) (p : Bool) (s : RunState W) (xs : List SinkCall)
      (progress : Progress W)
      → QuietHook sink bracket.hook
      → Surely p s xs progress
      → Surely p s
          (xs ++ phase_of [] teardown_phase bracket)
          (guarded iso clock bracket label subject progress)
  guarded-Sure label subject bracket p s xs (running q t) quiet (b, h) =
      let (c, k) = tear_down-Kept sink iso clock [] label subject bracket q t b.once quiet in
      (
        Base-trans sink b c,
        Kept-trans sink iso clock options to_string catalog s t
            (tear_down iso clock bracket label subject q t).1 h k,
      )
  guarded-Sure label subject bracket p s xs (returned q t) quiet (b, h) =
      let (c, k) = tear_down-Kept sink iso clock [] label subject bracket q t b.once quiet in
      (
        Base-trans sink b c,
        Kept-trans sink iso clock options to_string catalog s t
            (tear_down iso clock bracket label subject q t).1 h k,
      )
  guarded-Sure label subject bracket p s xs (escaped what q t) quiet b =
      let (c, _) = tear_down-Kept sink iso clock [] label subject bracket q t b.once quiet in
      Base-trans sink b c

  module _ (setup teardown : Bracket W) (safe_rig : RunState W → RunState W) where
    abbrev tests_told_all : List SinkCall
    tests_told_all = phase_of [] setup_phase setup ++ passes ++ phase_of [] teardown_phase teardown

    -- The result is true only if every name selected is known and the sink heard the calls.
    abbrev ToldIf : RunState W → Bool × RunState W → Type 0
    ToldIf s (q, t) =
        Base sink s t
        × (q ≡ true
            → (all_known iso clock options to_string catalog options.selection ≡ true)
              × Told sink [] s t tests_told_all)

    caught-Told :
        (s : RunState W) (progress : Progress W)
        → all_known iso clock options to_string catalog options.selection ≡ true
        → Surely true s tests_told_all progress
        → ToldIf s (caught iso clock options to_string catalog setup teardown safe_rig progress)
    caught-Told s (running q t) known (b, h) = (b, λ e. (known, (h e).1))
    caught-Told s (returned q t) known (b, h) = (b, λ e. (known, (h e).1))
    caught-Told s (escaped what q t) known b =
        (Base-trans sink b (post_note-Told sink iso clock [] _ _ t b.once).0, λ e. absurd cc)

    run_tests-Told :
        (s : RunState W)
        → occurrences sink s.journal.sinks ≡ 1
        → QuietGroups sink catalog
        → QuietHook sink setup.hook
        → QuietHook sink teardown.hook
        → ToldIf s (
            caught iso clock options to_string catalog setup teardown safe_rig
              (run_tests iso clock options to_string catalog setup teardown safe_rig s))
    unfolding run_tests
    run_tests-Told s once quiet q0 q1 =
        by_test (all_known iso clock options to_string catalog options.selection) refl
      where
        by_test :
            (known : Bool)
            → all_known iso clock options to_string catalog options.selection ≡ known
            → ToldIf s (
                caught iso clock options to_string catalog setup teardown safe_rig (
                  if known
                  then guarded iso clock teardown (text "RUN_TEARDOWN") (text "run") (
                      run_set_up iso clock options to_string catalog (run_hook setup setup_phase s))
                  else running false s))
        by_test false e = (Base-refl sink s once, λ f. absurd cc)
        by_test true e =
            let (base, told) = run_hook-Told sink [] setup_phase setup s once q0 in
            caught-Told s _ e (
              guarded-Sure (text "RUN_TEARDOWN") (text "run") teardown true s
                (phase_of [] setup_phase setup ++ passes) _ q1
                (run_set_up-Sure s (run_hook setup setup_phase s).1 (phase_of [] setup_phase setup)
                  (run_hook setup setup_phase s).0 quiet base told))

    -- For scripts and hooks that only post records and are left by `StopRequested` only when a stop
    -- has been requested, and for a sink that was added once and had heard nothing: if the run answers true, every
    -- selected name is in the catalog, and the sink heard, besides records, exactly these calls in this
    -- order: the run's start; the setup phase; in each of the passes, every group with a selected
    -- test, from its start through its setup phase, each selected test's start and its end with the
    -- verdict passed, and its teardown phase to its end; the teardown phase; the run's end, passed.
    pub run_suite-passed :
        (info : RunInfo) (s : RunState W)
        → occurrences sink s.journal.sinks ≡ 1
        → s.journal.heard ≡ []
        → QuietGroups sink catalog
        → QuietHook sink setup.hook
        → QuietHook sink teardown.hook
        → ((t : RunState W) → occurrences sink t.journal.sinks ≡ 1 → Quiet sink t (safe_rig t))
        → (run_suite iso clock options to_string catalog setup teardown safe_rig info s).0 ≡ true
        → (all_known iso clock options to_string catalog options.selection ≡ true)
          × (marks sink
                (run_suite iso clock options to_string catalog setup teardown safe_rig info
                  s).1.journal
              ≡ on_run_start info
                ∷ (phase_of [] setup_phase setup
                    ++ passes_told (pass_count options) (groups_told options catalog)
                    ++ phase_of [] teardown_phase teardown
                    ++ on_run_end true ∷ []))
    unfolding run_suite
    run_suite-passed info s once none_heard quiet q0 q1 q2 e =
        let begun = with_journal (begin info) s in
        let (started, sinks, group) = begin-marks sink info s.journal once none_heard in
        let (base, told) = run_tests-Told begun sinks quiet q0 q1 in
        let ran : Bool × RunState W =
          caught iso clock options to_string catalog setup teardown safe_rig
            (run_tests iso clock options to_string catalog setup teardown safe_rig begun) in
        let (known, during) = told e in
        let (marked, _) = during group in
        let safe = Quiet-Base sink ran.1 (safe_rig ran.1) base.once (q2 ran.1 base.once) in
        let ended = end_run-Marked sink ran.0 (safe_rig ran.1).journal safe.once in
        (
          known,
          ended.heard
              ∙ ap (λ xs. xs ++ on_run_end ran.0 ∷ [])
                  ((q2 ran.1 base.once).same_marks
                    ∙ marked.heard
                    ∙ ap (λ xs. xs ++ tests_told_all) started)
              ∙ ap (λ b. on_run_start info ∷ (tests_told_all ++ on_run_end b ∷ [])) e,
        )
