-- ===== src/Runner/Brackets.antt =====
-- What the hooks and notes of `runHook` and `TeardownGuard` tell a sink besides records.
use thorium.Prelude.{
  ℕ, ◌≡◌, sym, subst, ◌∙◌, inr, Bool, true, false, Option, none, some, List, [], ◌∷◌, ◌++◌, Text,
  text,
}
use mathlib.Core.List.{append-nil}
use thorium.Journal.Records.{verify, note, JournalRecord, SinkCall, on_phase_start, on_phase_end}
use thorium.Journal.{Journal, begin_phase, end_phase, post, tell}
use thorium.Journal.Sinks.{occurrences, post-heard}
use thorium.Journal.Marks.{Marked, Marked-trans, begin_phase-Marked, end_phase-Marked, post-Marked}
use thorium.Runner.{
  RunState, Progress, running, returned, escaped, HookEnd, answered, hook_threw, Bracket,
  with_journal, hook_of, run_hook, posted, post_note, fail, plain_record, teardown_phase,
  teardown_ended, teardown_of, tear_down, guarded,
}
use thorium.Runner.Facts.{
  Quiet, Base, Base-trans, Told, Outcome, Good-trans, Quiet-Base, Base-refl, Told-refl,
}

-- The hook only posts.
abbrev pub QuietHook : {W : Type 0} → ℕ → Option (RunState W → HookEnd × RunState W) → Type 0
QuietHook sink none = Unit
QuietHook {W} sink (some hook) =
    (s : RunState W) → occurrences sink s.journal.sinks ≡ 1 → Quiet sink s (hook s).1

-- What a phase with a hook tells.
abbrev pub phase_of : {W : Type 0} → Text → Text → Bracket W → List SinkCall
phase_of g phase bracket = elim bracket.hook [
  | none ↦ []
  | some _ ↦ on_phase_start g phase bracket.description ∷ on_phase_end phase ∷ []
]

module _ {W : Type 0} (sink : ℕ) where
  -- A call of the journal alone.
  pub journal-Base :
      (f : Journal → Journal) (s : RunState W) (xs : List SinkCall)
      → Marked sink s.journal (f s.journal) xs
      → Base sink s (with_journal f s)
  journal-Base f s xs m = record { once = m.sinks; honours = λ e. e }

  -- A phase around a quiet hook.
  hook_between-Told :
      (g phase title : Text) (s t : RunState W)
      → occurrences sink s.journal.sinks ≡ 1
      → Quiet sink (with_journal (begin_phase phase title) s) t
      → Base sink s (with_journal end_phase t)
        × Told sink g s
            (with_journal end_phase t)
            (on_phase_start g phase title ∷ on_phase_end phase ∷ [])
  unfolding begin_phase end_phase tell
  hook_between-Told g phase title s t once quiet =
      let begun = begin_phase-Marked sink phase title s.journal once in
      let base = Quiet-Base sink (with_journal (begin_phase phase title) s) t begun.sinks quiet in
      let ended = end_phase-Marked sink t.journal base.once in
      (
        record { once = ended.sinks; honours = λ e. base.honours e },
        λ in_group. (
          subst
              (λ x.
                Marked sink s.journal (end_phase t.journal)
                  (on_phase_start x phase title ∷ on_phase_end phase ∷ []))
              in_group
              (subst
                (λ x.
                  Marked sink s.journal (end_phase t.journal)
                    (on_phase_start s.journal.group phase title ∷ on_phase_end x ∷ []))
                quiet.same_phase
                (Marked-trans sink begun (
                  Marked-trans sink
                    (record { heard = quiet.same_marks ∙ sym (append-nil _); sinks = base.once })
                    ended))),
          quiet.same_group ∙ in_group,
        ),
      )

  pub run_hook-Told :
      (g phase : Text) (bracket : Bracket W) (s : RunState W)
      → occurrences sink s.journal.sinks ≡ 1
      → QuietHook sink bracket.hook
      → Base sink s (run_hook bracket phase s).1
        × Told sink g s (run_hook bracket phase s).1 (phase_of g phase bracket)
  unfolding run_hook
  run_hook-Told g phase bracket s once quiet = by_hook bracket.hook quiet
    where
      by_hook :
          (hook : Option (RunState W → HookEnd × RunState W))
          → QuietHook sink hook
          → Base sink s (hook_of phase bracket.description hook s).1
            × Told sink g s
                (hook_of phase bracket.description hook s).1
                (phase_of g phase (record bracket { hook = hook }))
      by_hook none q = (Base-refl sink s once, Told-refl sink g s once)
      by_hook (some hook) q =
          let inside = with_journal (begin_phase phase bracket.description) s in
          hook_between-Told g phase bracket.description s (hook inside).1 once
            (q inside (begin_phase-Marked sink _ bracket.description s.journal once).sinks)

module _ {W : Type 0} (sink : ℕ) (iso : ℕ → Text) (clock : W → ℕ) where
  -- A record is posted.
  posted-Told :
      (g : Text) (r : JournalRecord) (s : RunState W)
      → occurrences sink s.journal.sinks ≡ 1
      → Base sink s (posted iso clock r s) × Told sink g s (posted iso clock r s) []
  posted-Told g r s once =
      let m = post-Marked sink iso (clock s.world) r s.journal once in
      let (_, _, group, _) = post-heard iso sink (clock s.world) r s.journal once in
      (journal-Base sink (post iso (clock s.world) r) s [] m, λ e. (m, group ∙ e))

  pub post_note-Told :
      (g subject detail : Text) (s : RunState W)
      → occurrences sink s.journal.sinks ≡ 1
      → Base sink s (post_note iso clock subject detail s)
        × Told sink g s (post_note iso clock subject detail s) []
  unfolding post_note
  post_note-Told g subject detail s once =
      posted-Told g (plain_record iso clock note subject detail [] none) s once

  pub fail-Told :
      (g why : Text) (s : RunState W)
      → occurrences sink s.journal.sinks ≡ 1
      → Base sink s (fail iso clock why s) × Told sink g s (fail iso clock why s) []
  unfolding fail
  fail-Told g why s once =
      posted-Told g (plain_record iso clock verify [] why (text "<unchecked>") (some false)) s once

  -- A teardown that leaves `allPassed` true was quiet and found it true.
  abbrev Kept : Text → Bool → RunState W → List SinkCall → Bool × RunState W → Type 0
  Kept g p s told (q, t) = Base sink s t × (q ≡ true → (p ≡ true) × Told sink g s t told)

  noted-Base :
      (title subject detail : Text) (s t : RunState W)
      → occurrences sink s.journal.sinks ≡ 1
      → Quiet sink (with_journal (begin_phase teardown_phase title) s) t
      → Base sink s (with_journal end_phase (post_note iso clock subject detail t))
  noted-Base title subject detail s t once quiet =
      let begun = begin_phase-Marked sink teardown_phase title s.journal once in
      let base =
        Quiet-Base sink (with_journal (begin_phase teardown_phase title) s) t begun.sinks quiet in
      let (noted, _) = post_note-Told [] subject detail t base.once in
      let ended = end_phase-Marked sink (post_note iso clock subject detail t).journal noted.once in
      record { once = ended.sinks; honours = λ e. noted.honours (base.honours e) }

  teardown_ended-Kept :
      (g label subject title : Text) (p : Bool) (s t : RunState W) (end : HookEnd)
      → occurrences sink s.journal.sinks ≡ 1
      → Quiet sink (with_journal (begin_phase teardown_phase title) s) t
      → let (q, u) = teardown_ended iso clock label subject p (end, t) in
        Kept g p s
          (on_phase_start g teardown_phase title ∷ on_phase_end teardown_phase ∷ [])
          (q, with_journal end_phase u)
  teardown_ended-Kept g label subject title p s t (answered true) once quiet =
      let (base, told) = hook_between-Told sink g teardown_phase title s t once quiet in
      (base, λ e. (e, told))
  teardown_ended-Kept g label subject title p s t (answered false) once quiet =
      (noted-Base title subject _ s t once quiet, λ e. absurd cc)
  teardown_ended-Kept g label subject title p s t (hook_threw what) once quiet =
      (noted-Base title subject _ s t once quiet, λ e. absurd cc)

  pub tear_down-Kept :
      (g label subject : Text) (bracket : Bracket W) (p : Bool) (s : RunState W)
      → occurrences sink s.journal.sinks ≡ 1
      → QuietHook sink bracket.hook
      → Kept g p s
          (phase_of g teardown_phase bracket)
          (tear_down iso clock bracket label subject p s)
  unfolding tear_down
  tear_down-Kept g label subject bracket p s once quiet = by_hook bracket.hook quiet
    where
      by_hook :
          (hook : Option (RunState W → HookEnd × RunState W))
          → QuietHook sink hook
          → Kept g p s
              (phase_of g teardown_phase (record bracket { hook = hook }))
              (teardown_of iso clock label subject bracket.description hook p s)
      by_hook none q = (Base-refl sink s once, λ e. (e, Told-refl sink g s once))
      by_hook (some hook) q =
          let inside = with_journal (begin_phase teardown_phase bracket.description) s in
          teardown_ended-Kept g label subject bracket.description p s (hook inside).1
            (hook inside).0 once
            (q inside (begin_phase-Marked sink _ bracket.description s.journal once).sinks)

  pub guarded-Outcome :
      (g label subject : Text) (bracket : Bracket W) (p : Bool) (s : RunState W)
      (told : List SinkCall) (progress : Progress W)
      → QuietHook sink bracket.hook
      → Outcome sink g p s told progress
      → Outcome sink g p s
          (told ++ phase_of g teardown_phase bracket)
          (guarded iso clock bracket label subject progress)
  guarded-Outcome g label subject bracket p s told (running q t) quiet (b, h) =
      let (c, kept) = tear_down-Kept g label subject bracket q t b.once quiet in
      Good-trans sink g p q _ s t _ told (phase_of g teardown_phase bracket) (b, h)
        (c, λ e. inr (kept e))
  guarded-Outcome g label subject bracket p s told (returned q t) quiet (b, h) =
      let (c, kept) = tear_down-Kept g label subject bracket q t b.once quiet in
      (Base-trans sink b c, λ e. c.honours (h ((kept e).0)))
  guarded-Outcome g label subject bracket p s told (escaped what q t) quiet b =
      let (c, kept) = tear_down-Kept g label subject bracket q t b.once quiet in Base-trans sink b c
