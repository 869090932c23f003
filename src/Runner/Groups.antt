-- ===== src/Runner/Groups.antt =====
-- What `runOnePass` tells a sink besides records.
use thorium.Prelude.{
  ℕ, ◌≡◌, refl, sym, subst, inl, inr, Bool, true, false, List, [], ◌∷◌, ◌++◌, Text, text,
  if◌then◌else◌,
}
use mathlib.Core.List.{append-nil, append_assoc}
use thorium.Journal.Records.{SinkCall, on_group_start, on_group_end}
use thorium.Journal.{begin_group, end_group, tell}
use thorium.Journal.Sinks.{occurrences}
use thorium.Journal.Marks.{Marked, Marked-trans, begin_group-Marked, end_group-Marked}
use thorium.Runner.{
  RunState, Progress, running, returned, escaped, HookEnd, answered, hook_threw, TestGroup, Options,
  any_selected, setup_phase, teardown_phase, with_journal, poll, run_hook,
}
use thorium.Runner.Loops.{
  group_set_up, close_group, run_group, group_step, group_loop, run_one_pass,
}
use thorium.Runner.Facts.{
  Base, Base-trans, Told, Outcome, Outcome-trans, Outcome-called, Outcome-if, Outcome-either,
  Good-same, Good-false, Good-poll, Told-refl, Base-refl, poll-Base, poll-stops,
}
use thorium.Runner.Brackets.{QuietHook, phase_of, run_hook-Told, post_note-Told, guarded-Outcome}
use thorium.Runner.Tests.{QuietTests, tests_told, run_selected_tests-Outcome}

abbrev pub QuietGroups : {W : Type 0} → ℕ → List (TestGroup W) → Type 0
QuietGroups sink [] = Unit
QuietGroups sink (group ∷ groups) =
    (QuietHook sink group.setup.hook
      × QuietTests sink group.tests
      × QuietHook sink group.teardown.hook)
    × QuietGroups sink groups

-- A group whose setup, selected tests and teardown run, every test of which passes.
abbrev pub group_told : {W : Type 0} → Options → TestGroup W → List SinkCall
group_told options group =
    on_group_start group.name group.description
    ∷ (phase_of group.name setup_phase group.setup
        ++ tests_told options group.name group.tests
        ++ phase_of group.name teardown_phase group.teardown
        ++ on_group_end group.name ∷ [])

-- The groups that have a selected test, in their order.
abbrev pub groups_told : {W : Type 0} → Options → List (TestGroup W) → List SinkCall
groups_told options [] = []
groups_told options (group ∷ groups) =
    (if any_selected group options.selection then group_told options group else [])
    ++ groups_told options groups

module _ {W : Type 0} (sink : ℕ) (iso : ℕ → Text) (clock : W → ℕ) (options : Options) where
  group_set_up-Outcome :
      (group : TestGroup W) (p : Bool) (s t : RunState W) (xs : List SinkCall) (end : HookEnd)
      → QuietTests sink group.tests
      → Base sink s t
      → Told sink group.name s t xs
      → Outcome sink group.name p s
          (xs ++ tests_told options group.name group.tests)
          (group_set_up iso clock options group p (end, t))
  group_set_up-Outcome group p s t xs (answered true) quiet b told =
      Outcome-trans sink group.name p p s t xs (tests_told options group.name group.tests) _
        (Good-same sink group.name p s t xs b told)
        (run_selected_tests-Outcome sink iso clock options group.name group.tests p t b.once quiet)
  group_set_up-Outcome group p s t xs (answered false) quiet b told =
      Outcome-either sink group.name p s _ options.skeleton _ _
        (Outcome-trans sink group.name p false s t xs (tests_told options group.name group.tests) _
          (Good-false sink group.name p s t xs b)
          (run_selected_tests-Outcome sink iso clock options group.name group.tests false t b.once
            quiet))
        (Good-false sink group.name p s _ _
          (Base-trans sink b (post_note-Told sink iso clock group.name _ _ t b.once).0))
  group_set_up-Outcome group p s t xs (hook_threw what) quiet b told = b

  close_group-Outcome :
      (name description : Text) (p : Bool) (s : RunState W) (xs : List SinkCall)
      (progress : Progress W)
      → occurrences sink s.journal.sinks ≡ 1
      → Outcome sink name p (with_journal (begin_group name description) s) xs progress
      → Outcome sink [] p s
          (on_group_start name description ∷ (xs ++ on_group_end name ∷ []))
          (close_group iso clock options progress)
  unfolding begin_group end_group tell
  close_group-Outcome name description p s xs (running q t) once (b, h) =
      let begun = begin_group-Marked sink name description s.journal once in
      let ended = end_group-Marked sink t.journal b.once in
      (
        record { once = ended.sinks; honours = λ e. b.honours e },
        λ e. elim (h e) [
          | inl stopped ↦ inl stopped
          | inr (before, told) ↦ inr (
            before,
            λ _.
                let (marked, group) = told refl in
                (
                  Marked-trans sink begun (
                      Marked-trans sink marked (
                        subst
                          (λ g. Marked sink t.journal (end_group t.journal) (on_group_end g ∷ []))
                          group ended)),
                  refl,
                ),
          )
        ],
      )
  close_group-Outcome name description p s xs (returned q t) once (b, h) =
      (record { once = b.once; honours = λ e. b.honours e }, h)
  close_group-Outcome name description p s xs (escaped what q t) once b = record {
    once = b.once;
    honours = λ e. b.honours e;
  }

  run_group-Outcome :
      (group : TestGroup W) (p : Bool) (s : RunState W) (stopping : Bool)
      → occurrences sink s.journal.sinks ≡ 1
      → QuietHook sink group.setup.hook
      → QuietTests sink group.tests
      → QuietHook sink group.teardown.hook
      → (stopping ≡ true → s.stop.stop_honoured ≡ true)
      → Outcome sink [] p s
          (group_told options group)
          (run_group iso clock options group p (stopping, s))
  run_group-Outcome group p s true once q0 q1 q2 h = (Base-refl sink s once, λ e. h refl)
  run_group-Outcome group p s false once q0 q1 q2 h =
      let begun = begin_group-Marked sink group.name group.description s.journal once in
      let inside = with_journal (begin_group group.name group.description) s in
      let (base, told) =
        run_hook-Told sink group.name setup_phase group.setup inside begun.sinks q0 in
      close_group-Outcome group.name group.description p s _ _ once (
        guarded-Outcome sink iso clock group.name
          (text "TEARDOWN for group '" ++ (group.name ++ text "'")) (text "group") group.teardown p
          inside
          (phase_of group.name setup_phase group.setup ++ tests_told options group.name group.tests)
          _ q2
          (group_set_up-Outcome group p inside (run_hook group.setup setup_phase inside).1
            (phase_of group.name setup_phase group.setup)
            (run_hook group.setup setup_phase inside).0 q1 base told))

  group_step-Outcome :
      (group : TestGroup W) (p : Bool) (s : RunState W) (told : List SinkCall)
      (progress : Progress W)
      → QuietHook sink group.setup.hook
      → QuietTests sink group.tests
      → QuietHook sink group.teardown.hook
      → Outcome sink [] p s told progress
      → Outcome sink [] p s
          (told ++ (if any_selected group options.selection then group_told options group else []))
          (group_step iso clock options group progress)
  group_step-Outcome group p s told (running q t) q0 q1 q2 (b, h) =
      Outcome-if sink [] p q s t told (group_told options group)
        (any_selected group options.selection) _ (b, h)
        (Outcome-trans sink [] p q s (poll t).1 told (group_told options group) _
          (Good-poll sink [] p q s t told (b, h))
          (run_group-Outcome group q (poll t).1 (poll t).0 (poll-Base sink t b.once).once q0 q1 q2
            (poll-stops sink t)))
  group_step-Outcome group p s told (returned q t) q0 q1 q2 end = end
  group_step-Outcome group p s told (escaped what q t) q0 q1 q2 end = end

  group_loop-Outcome :
      (groups : List (TestGroup W)) (p : Bool) (s : RunState W) (told : List SinkCall)
      (progress : Progress W)
      → QuietGroups sink groups
      → Outcome sink [] p s told progress
      → Outcome sink [] p s
          (told ++ groups_told options groups)
          (group_loop iso clock options groups progress)
  group_loop-Outcome [] p s told progress quiet end =
      subst (λ xs. Outcome sink [] p s xs progress) (sym (append-nil told)) end
  group_loop-Outcome (group ∷ groups) p s told progress ((q0, q1, q2), rest) end =
      subst (λ xs. Outcome sink [] p s xs (group_loop iso clock options (group ∷ groups) progress))
        (append_assoc told
          (if any_selected group options.selection then group_told options group else [])
          (groups_told options groups))
        (group_loop-Outcome groups p s _ (group_step iso clock options group progress) rest
          (group_step-Outcome group p s told progress q0 q1 q2 end))

  pub run_one_pass-Outcome :
      (to_string : ℕ → Text) (catalog : List (TestGroup W)) (s : RunState W)
      → occurrences sink s.journal.sinks ≡ 1
      → QuietGroups sink catalog
      → Outcome sink [] true s
          (groups_told options catalog)
          (run_one_pass iso clock options to_string catalog s)
  unfolding run_one_pass
  run_one_pass-Outcome to_string catalog s once quiet =
      Outcome-called sink [] true s (groups_told options catalog) _ (
        group_loop-Outcome catalog true s [] (running true s) quiet
          (Base-refl sink s once, λ e. inr (e, Told-refl sink [] s once)))
