-- ===== src/Runner/Facts.antt =====
-- What the steps of a run tell a sink besides records, for hooks and scripts that only post.
use thorium.Prelude.{
  ℕ, ◌≡◌, refl, sym, ap, subst, ◌∙◌, ◌⊎◌, inl, inr, Bool, true, false, Option, none, some, List, [],
  ◌∷◌, ◌++◌, Text, if◌then◌else◌, arith,
}
use mathlib.Core.List.{append-nil}
use thorium.Journal.Records.{SinkCall}
use thorium.Journal.Sinks.{occurrences}
use thorium.Journal.Marks.{marks, Marked, Marked-trans}
use thorium.Control.StopRequest.{StopReason, StopState, request_stop, stop_now}
use thorium.Runner.Loops.{called}
use thorium.Runner.{RunState, Progress, running, returned, escaped, arrive, poll}

stop_now-honoured :
    (s : StopState)
    → (s.stop_honoured ≡ true → (stop_now s).1.stop_honoured ≡ true)
      × ((stop_now s).0 ≡ true → (stop_now s).1.stop_honoured ≡ true)
unfolding stop_now
stop_now-honoured s = (λ e. ground arith, λ e. ground arith)

stop_now-requested : (s : StopState) → s.stop_requested ≡ true → (stop_now s).0 ≡ true
unfolding stop_now
stop_now-requested s e = ground arith

-- A stop that is requested is seen at the next look.
pub poll-requested :
    {W : Type 0} (s : RunState W) → s.stop.stop_requested ≡ true → (poll s).0 ≡ true
unfolding poll request_stop
poll-requested {W} s e = by_due s.arrivals
  where
    by_due : (due : List (Option StopReason)) → (stop_now (arrive s due).stop).0 ≡ true
    by_due [] = stop_now-requested s.stop e
    by_due (none ∷ due) = stop_now-requested s.stop e
    by_due (some why ∷ due) = stop_now-requested (request_stop why s.stop) refl

module _ {W : Type 0} (sink : ℕ) where
  -- What the calls of a script or a hook leave alone: it only posts, and takes no stop back.
  pub record Quiet (s t : RunState W) : Type 0 where
    pub same_marks : marks sink t.journal ≡ marks sink s.journal
    pub same_sinks : t.journal.sinks ≡ s.journal.sinks
    pub same_group : t.journal.group ≡ s.journal.group
    pub same_test : t.journal.test ≡ s.journal.test
    pub same_phase : t.journal.phase ≡ s.journal.phase
    pub honours : s.stop.stop_honoured ≡ true → t.stop.stop_honoured ≡ true

  -- What every step keeps.
  pub record Base (s t : RunState W) : Type 0 where
    pub once : occurrences sink t.journal.sinks ≡ 1
    pub honours : s.stop.stop_honoured ≡ true → t.stop.stop_honoured ≡ true

  pub Base-trans : {s t u : RunState W} → Base s t → Base t u → Base s u
  Base-trans b c = record { once = c.once; honours = λ e. c.honours (b.honours e) }

  -- In group `g` the sink hears the calls, and the group stays.
  abbrev pub Told : Text → RunState W → RunState W → List SinkCall → Type 0
  Told g s t told =
      s.journal.group ≡ g → Marked sink s.journal t.journal told × (t.journal.group ≡ g)

  -- If `allPassed` is true afterwards, it was true before and the sink heard the calls, or a stop was
  -- honoured.
  abbrev pub Good : Text → Bool → RunState W → List SinkCall → Bool → RunState W → Type 0
  Good g p s told q t =
      Base s t × (q ≡ true → (t.stop.stop_honoured ≡ true) ⊎ ((p ≡ true) × Told g s t told))

  pub Good-trans :
      (g : Text) (p q r : Bool) (s t u : RunState W) (xs ys : List SinkCall)
      → Good g p s xs q t
      → Good g q t ys r u
      → Good g p s (xs ++ ys) r u
  Good-trans g p q r s t u xs ys (b, f) (c, h) = (
    Base-trans b c,
    λ e. elim (h e) [
      | inl stopped ↦ inl stopped
      | inr (passed, told) ↦ elim (f passed) [
        | inl stopped ↦ inl (c.honours stopped)
        | inr (before, told_before) ↦ inr (
          before,
          λ in_group.
              let (marked, group) = told_before in_group in
              let (marked', group') = told group in (Marked-trans sink marked marked', group'),
        )
      ]
    ],
  )

  -- The same of the ways out of a block. A return has honoured a stop, or its result is false.
  abbrev pub Outcome : Text → Bool → RunState W → List SinkCall → Progress W → Type 0
  Outcome g p s told (running q t) = Good g p s told q t
  Outcome g p s told (returned q t) = Base s t × (q ≡ true → t.stop.stop_honoured ≡ true)
  Outcome g p s told (escaped what q t) = Base s t

  pub Outcome-trans :
      (g : Text) (p q : Bool) (s t : RunState W) (xs ys : List SinkCall) (progress : Progress W)
      → Good g p s xs q t
      → Outcome g q t ys progress
      → Outcome g p s (xs ++ ys) progress
  Outcome-trans g p q s t xs ys (running r u) good end = Good-trans g p q r s t u xs ys good end
  Outcome-trans g p q s t xs ys (returned r u) (b, _) (c, h) = (Base-trans b c, h)
  Outcome-trans g p q s t xs ys (escaped what r u) (b, _) c = record {
    once = c.once;
    honours = λ e. c.honours (b.honours e);
  }

  pub Outcome-called :
      (g : Text) (p : Bool) (s : RunState W) (xs : List SinkCall) (progress : Progress W)
      → Outcome g p s xs progress
      → Outcome g p s xs (called progress)
  Outcome-called g p s xs (running q t) end = end
  Outcome-called g p s xs (returned q t) (b, h) = (b, λ e. inl (h e))
  Outcome-called g p s xs (escaped what q t) end = end

  -- A step that keeps `allPassed`.
  pub Good-same :
      (g : Text) (p : Bool) (s t : RunState W) (xs : List SinkCall)
      → Base s t
      → Told g s t xs
      → Good g p s xs p t
  Good-same g p s t xs b told = (b, λ e. inr (e, told))

  -- A step that makes it false.
  pub Good-false :
      (g : Text) (p : Bool) (s t : RunState W) (xs : List SinkCall)
      → Base s t
      → Good g p s xs false t
  Good-false g p s t xs b = (b, λ e. absurd cc)

  module _ (s t : RunState W) (once : occurrences sink s.journal.sinks ≡ 1) where
    pub Quiet-Base : Quiet s t → Base s t
    Quiet-Base q = record { once = ap (occurrences sink) q.same_sinks ∙ once; honours = q.honours }

    pub Quiet-Told : (g : Text) → Quiet s t → Told g s t []
    Quiet-Told g q e = (
      record {
        heard = q.same_marks ∙ sym (append-nil _);
        sinks = ap (occurrences sink) q.same_sinks ∙ once;
      },
      q.same_group ∙ e,
    )

  pub Base-refl : (s : RunState W) → occurrences sink s.journal.sinks ≡ 1 → Base s s
  Base-refl s once = record { once = once; honours = λ e. e }

  pub Told-refl : (g : Text) (s : RunState W) → occurrences sink s.journal.sinks ≡ 1 → Told g s s []
  Told-refl g s once e = (record { heard = sym (append-nil _); sinks = once }, e)

  -- The looks at the stop flag.
  arrive-journal :
      (s : RunState W) (due : List (Option StopReason)) → (arrive s due).journal ≡ s.journal
  arrive-journal s [] = refl
  arrive-journal s (none ∷ due) = refl
  arrive-journal s (some why ∷ due) = refl

  arrive-honoured :
      (s : RunState W) (due : List (Option StopReason))
      → (arrive s due).stop.stop_honoured ≡ s.stop.stop_honoured
  unfolding request_stop
  arrive-honoured s [] = refl
  arrive-honoured s (none ∷ due) = refl
  arrive-honoured s (some why ∷ due) = refl

  pub poll-journal : (s : RunState W) → (poll s).1.journal ≡ s.journal
  unfolding poll
  poll-journal s = arrive-journal s s.arrivals

  pub poll-stops : (s : RunState W) → (poll s).0 ≡ true → (poll s).1.stop.stop_honoured ≡ true
  unfolding poll
  poll-stops s e = (stop_now-honoured (arrive s s.arrivals).stop).1 e

  pub poll-honours :
      (s : RunState W) → s.stop.stop_honoured ≡ true → (poll s).1.stop.stop_honoured ≡ true
  unfolding poll
  poll-honours s e =
      (stop_now-honoured (arrive s s.arrivals).stop).0 (arrive-honoured s s.arrivals ∙ e)

  pub poll-Base : (s : RunState W) → occurrences sink s.journal.sinks ≡ 1 → Base s (poll s).1
  poll-Base s once = record {
    once = ap (λ j. occurrences sink j.sinks) (poll-journal s) ∙ once;
    honours = poll-honours s;
  }

  pub poll-Told :
      (g : Text) (s : RunState W) → occurrences sink s.journal.sinks ≡ 1 → Told g s (poll s).1 []
  poll-Told g s once e = (
    record {
      heard = ap (marks sink) (poll-journal s) ∙ sym (append-nil _);
      sinks = ap (λ j. occurrences sink j.sinks) (poll-journal s) ∙ once;
    },
    ap (λ j. j.group) (poll-journal s) ∙ e,
  )

  pub Good-poll :
      (g : Text) (p q : Bool) (s t : RunState W) (xs : List SinkCall)
      → Good g p s xs q t
      → Good g p s xs q (poll t).1
  Good-poll g p q s t xs (b, h) =
      subst (λ ys. Good g p s ys q (poll t).1) (append-nil xs)
        (Good-trans g p q q s t (poll t).1 xs [] (b, h)
          (Good-same g q t (poll t).1 [] (poll-Base t b.once) (poll-Told g t b.once)))

  -- A step under a test, and no step.
  pub Outcome-if :
      (g : Text) (p q : Bool) (s t : RunState W) (xs ys : List SinkCall) (test : Bool)
      (progress : Progress W)
      → Good g p s xs q t
      → Outcome g p s (xs ++ ys) progress
      → Outcome g p s (xs ++ (if test then ys else [])) (if test then progress else running q t)
  Outcome-if g p q s t xs ys true progress good end = end
  Outcome-if g p q s t xs ys false progress good end =
      subst (λ zs. Good g p s zs q t) (sym (append-nil xs)) good

  pub Outcome-either :
      (g : Text) (p : Bool) (s : RunState W) (xs : List SinkCall) (test : Bool)
      (first second : Progress W)
      → Outcome g p s xs first
      → Outcome g p s xs second
      → Outcome g p s xs (if test then first else second)
  Outcome-either g p s xs true first second of_yes of_no = of_yes
  Outcome-either g p s xs false first second of_yes of_no = of_no
