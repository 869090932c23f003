-- ===== src/Runner/Stops.antt =====
-- A stop that is requested before the passes: `stopNow` in the loops of main.cpp and what `runPasses`
-- makes of it.
use thorium.Prelude.{
  ℕ, zero, suc, ◌+◌, ◌≡◌, refl, sym, ap, subst, ◌∙◌, Bool, true, false, List, Text, text,
  if◌then◌else◌,
}
use mathlib.Core.List.{append-nil}
use thorium.Journal.Sinks.{occurrences}
use thorium.Journal.Marks.{marks}
use thorium.Runner.{
  RunState, Progress, running, returned, escaped, TestGroup, Options, poll, post_note,
}
use thorium.Runner.Loops.{
  called, pass_count, run_pass, pass_step, pass_loop, report_stop, run_passes, stopped_text,
}
use thorium.Runner.Facts.{poll-journal, poll-requested, poll-stops}
use thorium.Runner.Brackets.{post_note-Told}

-- A block that has ended without an exception, with a failure.
abbrev pub Failed : {W : Type 0} → (RunState W → Type 0) → Progress W → Type 0
Failed P (running p s) = (p ≡ false) × P s
Failed P (returned p s) = (p ≡ false) × P s
Failed P (escaped what p s) = ⊥

module _ {W : Type 0} (iso : ℕ → Text) (clock : W → ℕ) (options : Options) (to_string : ℕ → Text)
    (catalog : List (TestGroup W)) where
  pass_loop-returned :
      (left passes pass : ℕ) (p : Bool) (s : RunState W)
      → pass_loop iso clock options to_string catalog left passes pass (returned p s) ≡ returned p s
  pass_loop-returned zero passes pass p s = refl
  pass_loop-returned (suc left) passes pass p s = pass_loop-returned left passes (pass + 1) p s

  pass_step-stopped :
      (passes pass : ℕ) (p : Bool) (s : RunState W)
      → s.stop.stop_requested ≡ true
      → pass_step iso clock options to_string catalog passes pass (running p s)
        ≡ returned p (poll s).1
  pass_step-stopped passes pass p s e =
      ap (λ b. run_pass iso clock options to_string catalog passes pass p (b, (poll s).1))
        (poll-requested s e)

  reported-Failed :
      (p honoured : Bool) (s t : RunState W) (sink : ℕ) (detail : Text)
      → occurrences sink s.journal.sinks ≡ 1
      → marks sink s.journal ≡ marks sink t.journal
      → honoured ≡ true
      → Failed
          (λ u. marks sink u.journal ≡ marks sink t.journal)
          (if honoured
            then running false (post_note iso clock (text "run") detail s)
            else running p s)
  reported-Failed p true s t sink detail once same e = (
    refl,
    (let (_, told) = post_note-Told sink iso clock s.journal.group (text "run") detail s once in
          (told refl).0.heard)
        ∙ append-nil _
        ∙ same,
  )
  reported-Failed p false s t sink detail once same e = absurd cc

  stopped_loop-Failed :
      (count passes : ℕ) (p : Bool) (s : RunState W) (sink : ℕ)
      → s.stop.stop_requested ≡ true
      → occurrences sink s.journal.sinks ≡ 1
      → Failed
          (λ t. marks sink t.journal ≡ marks sink s.journal)
          (report_stop iso clock options to_string catalog (
            called
              (pass_loop iso clock options to_string catalog (suc count) passes 0 (running p s))))
  stopped_loop-Failed count passes p s sink requested once =
      subst
        (λ progress.
          Failed (λ t. marks sink t.journal ≡ marks sink s.journal)
            (report_stop iso clock options to_string catalog (called progress)))
        (sym (
          ap (pass_loop iso clock options to_string catalog count passes 1)
            (pass_step-stopped passes 0 p s requested)
          ∙ pass_loop-returned count passes 1 p (poll s).1))
        (reported-Failed p (poll s).1.stop.stop_honoured (poll s).1 s sink
          (stopped_text (poll s).1.stop.stop_reason)
          (ap (λ j. occurrences sink j.sinks) (poll-journal sink s) ∙ once)
          (ap (marks sink) (poll-journal sink s)) (poll-stops sink s (poll-requested s requested)))

  -- Where a stop has been requested and there is at least one pass to make, the passes end without an
  -- exception and the run has failed, and no group, test or phase has begun: a sink that was added once
  -- hears at most records.
  pub run_passes-stopped :
      (count : ℕ) (p : Bool) (s : RunState W) (sink : ℕ)
      → pass_count options ≡ suc count
      → s.stop.stop_requested ≡ true
      → occurrences sink s.journal.sinks ≡ 1
      → Failed
          (λ t. marks sink t.journal ≡ marks sink s.journal)
          (run_passes iso clock options to_string catalog p s)
  unfolding run_passes
  run_passes-stopped count p s sink at_least_one requested once =
      subst
        (λ n.
          Failed (λ t. marks sink t.journal ≡ marks sink s.journal)
            (report_stop iso clock options to_string catalog
              (called (pass_loop iso clock options to_string catalog n n 0 (running p s)))))
        (sym at_least_one) (stopped_loop-Failed count (suc count) p s sink requested once)
