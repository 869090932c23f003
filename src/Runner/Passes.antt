-- ===== src/Runner/Passes.antt =====
-- What `runPasses` tells a sink besides records.
use thorium.Prelude.{
  ℕ, zero, suc, ◌+◌, ◌≡◌, refl, sym, subst, inl, inr, Bool, true, false, ◌&&◌, List, [], ◌++◌, Text,
  text, if◌then◌else◌, ltb,
}
use mathlib.Core.List.{append-nil, append_assoc}
use thorium.Journal.Records.{SinkCall}
use thorium.Journal.Sinks.{occurrences}
use thorium.Journal.Marks.{Marked-trans}
use thorium.Runner.{
  RunState, Progress, running, returned, escaped, TestGroup, Options, poll, post_note,
}
use thorium.Runner.Loops.{
  called, pass_count, announced, pass_ended, run_pass, pass_step, pass_loop, report_stop,
  run_passes, stopped_text,
}
use thorium.Runner.Facts.{
  Base, Base-trans, Told, Good, Outcome, Outcome-trans, Good-same, Good-poll, Told-refl, Base-refl,
  poll-Base, poll-stops,
}
use thorium.Runner.Brackets.{post_note-Told}
use thorium.Runner.Tests.{and-both}
use thorium.Runner.Groups.{QuietGroups, groups_told, run_one_pass-Outcome}

-- The calls of a number of passes.
abbrev pub passes_told : ℕ → List SinkCall → List SinkCall
passes_told zero told = []
passes_told (suc n) told = told ++ passes_told n told

module _ {W : Type 0} (sink : ℕ) (iso : ℕ → Text) (clock : W → ℕ) (options : Options)
    (to_string : ℕ → Text) (catalog : List (TestGroup W)) where
  announced-Told :
      (passes pass : ℕ) (s : RunState W)
      → occurrences sink s.journal.sinks ≡ 1
      → Base sink s (announced iso clock options to_string catalog passes pass s)
        × Told sink [] s (announced iso clock options to_string catalog passes pass s) []
  announced-Told passes pass s once = by_test _ (ltb 1 passes)
    where
      by_test :
          (detail : Text) (several : Bool)
          → let after = if several then post_note iso clock (text "run") detail s else s in
            Base sink s after × Told sink [] s after []
      by_test detail true = post_note-Told sink iso clock [] (text "run") detail s once
      by_test detail false = (Base-refl sink s once, Told-refl sink [] s once)

  pass_ended-Outcome :
      (pass : ℕ) (p : Bool) (s : RunState W) (progress : Progress W)
      → Outcome sink [] true s (groups_told options catalog) progress
      → Outcome sink [] p s
          (groups_told options catalog)
          (pass_ended iso clock options to_string catalog pass p progress)
  pass_ended-Outcome pass p s (running true t) (b, h) = (
    b,
    λ e. elim (h refl) [
      | inl stopped ↦ inl stopped
      | inr (_, told) ↦ inr ((and-both p true e).0, told)
    ],
  )
  pass_ended-Outcome pass p s (running false t) (b, h) = by_test _ options.until_failure
    where
      by_test :
          (detail : Text) (until : Bool)
          → Outcome sink [] p s (groups_told options catalog) (
              if until
              then returned (p && false) (post_note iso clock (text "run") detail t)
              else running (p && false) t)
      by_test detail true = (
        Base-trans sink b (post_note-Told sink iso clock [] (text "run") detail t b.once).0,
        λ e. absurd (let (_, f) = and-both p false e in cc),
      )
      by_test detail false = (b, λ e. absurd (let (_, f) = and-both p false e in cc))
  pass_ended-Outcome pass p s (returned q t) (b, h) = (b, λ e. inl (h ((and-both p q e).1)))
  pass_ended-Outcome pass p s (escaped what q t) b = b

  run_pass-Outcome :
      (passes pass : ℕ) (p : Bool) (s : RunState W) (stopping : Bool)
      → occurrences sink s.journal.sinks ≡ 1
      → QuietGroups sink catalog
      → (stopping ≡ true → s.stop.stop_honoured ≡ true)
      → Outcome sink [] p s
          (groups_told options catalog)
          (run_pass iso clock options to_string catalog passes pass p (stopping, s))
  run_pass-Outcome passes pass p s true once quiet h = (Base-refl sink s once, λ e. h refl)
  run_pass-Outcome passes pass p s false once quiet h =
      let after = announced iso clock options to_string catalog passes pass s in
      let (base, told) = announced-Told passes pass s once in
      Outcome-trans sink [] p p s after [] (groups_told options catalog) _
        (Good-same sink [] p s after [] base told)
        (pass_ended-Outcome pass p after _
          (run_one_pass-Outcome sink iso clock options to_string catalog after base.once quiet))

  pass_step-Outcome :
      (passes pass : ℕ) (p : Bool) (s : RunState W) (told : List SinkCall) (progress : Progress W)
      → QuietGroups sink catalog
      → Outcome sink [] p s told progress
      → Outcome sink [] p s
          (told ++ groups_told options catalog)
          (pass_step iso clock options to_string catalog passes pass progress)
  pass_step-Outcome passes pass p s told (running q t) quiet (b, h) =
      Outcome-trans sink [] p q s (poll t).1 told (groups_told options catalog) _
        (Good-poll sink [] p q s t told (b, h))
        (run_pass-Outcome passes pass q (poll t).1 (poll t).0 (poll-Base sink t b.once).once quiet
          (poll-stops sink t))
  pass_step-Outcome passes pass p s told (returned q t) quiet end = end
  pass_step-Outcome passes pass p s told (escaped what q t) quiet end = end

  pass_loop-Outcome :
      (left passes pass : ℕ) (p : Bool) (s : RunState W) (told : List SinkCall)
      (progress : Progress W)
      → QuietGroups sink catalog
      → Outcome sink [] p s told progress
      → Outcome sink [] p s
          (told ++ passes_told left (groups_told options catalog))
          (pass_loop iso clock options to_string catalog left passes pass progress)
  pass_loop-Outcome zero passes pass p s told progress quiet end =
      subst (λ xs. Outcome sink [] p s xs progress) (sym (append-nil told)) end
  pass_loop-Outcome (suc left) passes pass p s told progress quiet end =
      subst
        (λ xs.
          Outcome sink [] p s xs
            (pass_loop iso clock options to_string catalog (suc left) passes pass progress))
        (append_assoc told (groups_told options catalog)
          (passes_told left (groups_told options catalog)))
        (pass_loop-Outcome left passes (pass + 1) p s _
          (pass_step iso clock options to_string catalog passes pass progress) quiet
          (pass_step-Outcome passes pass p s told progress quiet end))

  -- If the result is true, it was true before and the sink heard the calls.
  abbrev pub Sure : Text → Bool → RunState W → List SinkCall → Progress W → Type 0
  Sure g p s told (running q t) = Base sink s t × (q ≡ true → (p ≡ true) × Told sink g s t told)
  Sure g p s told (returned q t) = Base sink s t × (q ≡ true → (p ≡ true) × Told sink g s t told)
  Sure g p s told (escaped what q t) = Base sink s t

  pub Kept-trans :
      {p q r : Bool} (s t u : RunState W) {xs ys : List SinkCall}
      → (q ≡ true → (p ≡ true) × Told sink [] s t xs)
      → (r ≡ true → (q ≡ true) × Told sink [] t u ys)
      → r ≡ true
      → (p ≡ true) × Told sink [] s u (xs ++ ys)
  Kept-trans s t u h k e =
      let (middle, told') = k e in
      let (before, told) = h middle in
      (
        before,
        λ in_group.
            let (marked, group) = told in_group in
            let (marked', group') = told' group in (Marked-trans sink marked marked', group'),
      )

  report_stop-Sure :
      (p q : Bool) (s t : RunState W) (told : List SinkCall)
      → Good sink [] p s told q t
      → Sure [] p s told (report_stop iso clock options to_string catalog (running q t))
  report_stop-Sure p q s t told (b, h) =
      by_test (stopped_text t.stop.stop_reason) t.stop.stop_honoured refl
    where
      by_test :
          (detail : Text) (stopped : Bool)
          → t.stop.stop_honoured ≡ stopped
          → Sure [] p s told (
              if stopped
              then running false (post_note iso clock (text "run") detail t)
              else running q t)
      by_test detail true e = (
        Base-trans sink b (post_note-Told sink iso clock [] (text "run") detail t b.once).0,
        λ f. absurd cc,
      )
      by_test detail false e = (b, λ f. elim (h f) [ inl stopped ↦ absurd cc | inr sure ↦ sure ])

  reported-Sure :
      (p : Bool) (s : RunState W) (told : List SinkCall) (progress : Progress W)
      → Outcome sink [] p s told progress
      → Sure [] p s told (report_stop iso clock options to_string catalog (called progress))
  reported-Sure p s told (running q t) good = report_stop-Sure p q s t told good
  reported-Sure p s told (returned q t) (b, h) = report_stop-Sure p q s t told (b, λ e. inl (h e))
  reported-Sure p s told (escaped what q t) b = b

  abbrev pub all_passes_told : List SinkCall
  all_passes_told = passes_told (pass_count options) (groups_told options catalog)

  pub run_passes-Sure :
      (p : Bool) (s : RunState W)
      → occurrences sink s.journal.sinks ≡ 1
      → QuietGroups sink catalog
      → Sure [] p s all_passes_told (run_passes iso clock options to_string catalog p s)
  unfolding run_passes
  run_passes-Sure p s once quiet = reported-Sure p s all_passes_told _ (
      pass_loop-Outcome (pass_count options) (pass_count options) 0 p s [] (running p s) quiet
        (Base-refl sink s once, λ e. inr (e, Told-refl sink [] s once)))

  pub Sure-trans :
      (p q : Bool) (s t : RunState W) (xs ys : List SinkCall) (progress : Progress W)
      → Base sink s t
      → (q ≡ true → (p ≡ true) × Told sink [] s t xs)
      → Sure [] q t ys progress
      → Sure [] p s (xs ++ ys) progress
  Sure-trans p q s t xs ys (running r u) b h (c, k) = (Base-trans sink b c, Kept-trans s t u h k)
  Sure-trans p q s t xs ys (returned r u) b h (c, k) = (Base-trans sink b c, Kept-trans s t u h k)
  Sure-trans p q s t xs ys (escaped what r u) b h c = Base-trans sink b c
