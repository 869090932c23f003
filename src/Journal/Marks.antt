-- ===== src/Journal/Marks.antt =====
-- What one sink hears of a run besides the records: the beginnings and ends of groups, tests and
-- phases, which the operations of the journal add one by one.
use thorium.Prelude.{
  ℕ, ◌≡◌, refl, sym, ap, subst, ◌∙◌, Bool, ◌&&◌, List, [], ◌∷◌, ◌++◌, Text, eqb, if◌then◌else◌,
  Bool-cases, inl, inr,
}
use mathlib.Core.List.{append_assoc, append-nil}
use thorium.Criteria.Variants.{lock_criteria_variant}
use thorium.Journal.Records.{
  RunInfo, JournalRecord, SinkCall, on_run_start, on_group_start, on_group_end, on_test_start,
  on_phase_start, on_phase_end, on_event, on_test_end, on_run_end,
}
use thorium.Journal.{
  Journal, begin, end_run, tell, begin_group, end_group, begin_test, begin_phase, end_phase,
  unchecked, post, check_any, close_test, end_test,
}
use thorium.Journal.Sinks.{heard_by, occurrences, heard_by-tell, post-heard}

-- The calls but the records.
abbrev pub without_events : List SinkCall → List SinkCall
without_events [] = []
without_events (on_event e ∷ told) = without_events told
without_events (on_run_start info ∷ told) = on_run_start info ∷ without_events told
without_events (on_group_start g d ∷ told) = on_group_start g d ∷ without_events told
without_events (on_group_end g ∷ told) = on_group_end g ∷ without_events told
without_events (on_test_start t d ∷ told) = on_test_start t d ∷ without_events told
without_events (on_phase_start g p d ∷ told) = on_phase_start g p d ∷ without_events told
without_events (on_phase_end p ∷ told) = on_phase_end p ∷ without_events told
without_events (on_test_end g t passed ∷ told) = on_test_end g t passed ∷ without_events told
without_events (on_run_end passed ∷ told) = on_run_end passed ∷ without_events told

pub without_events-append :
    (xs ys : List SinkCall) → without_events (xs ++ ys) ≡ without_events xs ++ without_events ys
without_events-append [] ys = refl
without_events-append (on_event e ∷ xs) ys = without_events-append xs ys
without_events-append (on_run_start info ∷ xs) ys =
    ap (◌∷◌ (on_run_start info)) (without_events-append xs ys)
without_events-append (on_group_start g d ∷ xs) ys =
    ap (◌∷◌ (on_group_start g d)) (without_events-append xs ys)
without_events-append (on_group_end g ∷ xs) ys =
    ap (◌∷◌ (on_group_end g)) (without_events-append xs ys)
without_events-append (on_test_start t d ∷ xs) ys =
    ap (◌∷◌ (on_test_start t d)) (without_events-append xs ys)
without_events-append (on_phase_start g p d ∷ xs) ys =
    ap (◌∷◌ (on_phase_start g p d)) (without_events-append xs ys)
without_events-append (on_phase_end p ∷ xs) ys =
    ap (◌∷◌ (on_phase_end p)) (without_events-append xs ys)
without_events-append (on_test_end g t passed ∷ xs) ys =
    ap (◌∷◌ (on_test_end g t passed)) (without_events-append xs ys)
without_events-append (on_run_end passed ∷ xs) ys =
    ap (◌∷◌ (on_run_end passed)) (without_events-append xs ys)

unfoldable pub marks : ℕ → Journal → List SinkCall
marks s j = without_events (heard_by s j.heard)

-- From `j` to `k` the sink hears the added calls, and the sinks stay.
pub record Marked (s : ℕ) (j k : Journal) (added : List SinkCall) : Type 0 where
  pub heard : marks s k ≡ marks s j ++ added
  pub sinks : occurrences s k.sinks ≡ 1

pub Marked-trans :
    (s : ℕ) {j k l : Journal} {xs ys : List SinkCall}
    → Marked s j k xs
    → Marked s k l ys
    → Marked s j l (xs ++ ys)
Marked-trans s {j} {xs} {ys} m n = record {
  heard = n.heard ∙ ap (λ zs. zs ++ ys) m.heard ∙ append_assoc (marks s j) xs ys;
  sinks = n.sinks;
}

module _ (s : ℕ) where
  told-marks :
      (told : SinkCall) (j : Journal)
      → occurrences s j.sinks ≡ 1
      → marks s (tell told j) ≡ marks s j ++ without_events (told ∷ [])
  unfolding marks
  told-marks told j once =
      ap without_events (heard_by-tell s told j once)
      ∙ without_events-append (heard_by s j.heard) (told ∷ [])

  pub begin_group-Marked :
      (g d : Text) (j : Journal)
      → occurrences s j.sinks ≡ 1
      → Marked s j (begin_group g d j) (on_group_start g d ∷ [])
  unfolding begin_group tell marks
  begin_group-Marked g d j once = record {
    heard = told-marks (on_group_start g d) j once;
    sinks = once;
  }

  pub end_group-Marked :
      (j : Journal)
      → occurrences s j.sinks ≡ 1
      → Marked s j (end_group j) (on_group_end j.group ∷ [])
  unfolding end_group tell marks
  end_group-Marked j once = record {
    heard = told-marks (on_group_end j.group) j once;
    sinks = once;
  }

  pub begin_test-Marked :
      (t d : Text) (j : Journal)
      → occurrences s j.sinks ≡ 1
      → Marked s j (begin_test t d j) (on_test_start t d ∷ [])
  unfolding begin_test tell marks
  begin_test-Marked t d j once = record {
    heard = told-marks (on_test_start t d) j once;
    sinks = once;
  }

  pub begin_phase-Marked :
      (p d : Text) (j : Journal)
      → occurrences s j.sinks ≡ 1
      → Marked s j (begin_phase p d j) (on_phase_start j.group p d ∷ [])
  unfolding begin_phase tell marks
  begin_phase-Marked p d j once = record {
    heard = told-marks (on_phase_start j.group p d) j once;
    sinks = once;
  }

  pub end_phase-Marked :
      (j : Journal)
      → occurrences s j.sinks ≡ 1
      → Marked s j (end_phase j) (on_phase_end j.phase ∷ [])
  unfolding end_phase tell marks
  end_phase-Marked j once = record {
    heard = told-marks (on_phase_end j.phase) j once;
    sinks = once;
  }

  module _ (iso : ℕ → Text) where
    pub post-Marked :
        (now : ℕ) (r : JournalRecord) (j : Journal)
        → occurrences s j.sinks ≡ 1
        → Marked s j (post iso now r j) []
    unfolding marks
    post-Marked now r j once =
        let (heard, sinks, _, _) = post-heard iso s now r j once in
        record {
          heard = ap without_events heard ∙ without_events-append (heard_by s j.heard) _;
          sinks = ap (occurrences s) sinks ∙ once;
        }

    -- Where no mark is told and the group and the test stay.
    abbrev Within : Journal → Journal → Type 0
    Within j k = Marked s j k [] × (k.group ≡ j.group) × (k.test ≡ j.test)

    check_any-Within :
        (now : ℕ) (j : Journal) → occurrences s j.sinks ≡ 1 → Within j (check_any iso now j)
    unfolding check_any
    check_any-Within now j once = elim (Bool-cases (j.test_open && eqb j.test_checks 0)) [
      | inl e ↦
          let (_, _, group, test) = post-heard iso s now unchecked j once in
          subst (λ b. Within j (if b then post iso now unchecked j else j)) (sym e)
            (post-Marked now unchecked j once, group, test)
      | inr e ↦
          subst (λ b. Within j (if b then post iso now unchecked j else j)) (sym e)
            (record { heard = sym (append-nil (marks s j)); sinks = once }, refl, refl)
    ]

    close_test-Marked :
        (passed : Bool) (j : Journal)
        → occurrences s j.sinks ≡ 1
        → Marked s j (close_test passed j) (on_test_end j.group j.test passed ∷ [])
    unfolding close_test tell marks
    close_test-Marked passed j once = record {
      heard = told-marks (on_test_end j.group j.test passed) j once;
      sinks = once;
    }

    pub end_test-Marked :
        (now : ℕ) (j : Journal)
        → occurrences s j.sinks ≡ 1
        → Marked s j (end_test iso now j).1 (on_test_end j.group j.test (end_test iso now j).0 ∷ [])
    unfolding end_test
    end_test-Marked now j once =
        let (within, group, test) = check_any-Within now j once in
        let passed : Bool = (end_test iso now j).0 in
        subst (λ g. Marked s j (end_test iso now j).1 (on_test_end g j.test passed ∷ [])) group
          (subst
            (λ t.
              Marked s j (end_test iso now j).1
                (on_test_end (check_any iso now j).group t passed ∷ []))
            test
            (Marked-trans s within (close_test-Marked passed (check_any iso now j) within.sinks)))

    pub end_test-group :
        (now : ℕ) (j : Journal) → occurrences s j.sinks ≡ 1 → (end_test iso now j).1.group ≡ j.group
    unfolding end_test close_test tell
    end_test-group now j once = (check_any-Within now j once).1

  pub end_run-Marked :
      (all_passed : Bool) (j : Journal)
      → occurrences s j.sinks ≡ 1
      → Marked s j (end_run all_passed j) (on_run_end all_passed ∷ [])
  unfolding end_run tell marks
  end_run-Marked all_passed j once = record {
    heard = told-marks (on_run_end all_passed) j once;
    sinks = once;
  }

  -- A run begins with nothing heard.
  pub begin-marks :
      (info : RunInfo) (j : Journal)
      → occurrences s j.sinks ≡ 1
      → j.heard ≡ []
      → (marks s (begin info j) ≡ on_run_start info ∷ [])
        × (occurrences s (begin info j).sinks ≡ 1)
        × ((begin info j).group ≡ [])
  unfolding begin tell marks heard_by
  begin-marks info j once none_heard = (
    told-marks (on_run_start info)
          (record j {
            criteria = lock_criteria_variant j.criteria;
            run_info = info;
            next_sequence = 0;
            group = [];
            test = [];
            phase = [];
          })
          once
        ∙ ap (λ xs. without_events (heard_by s xs) ++ on_run_start info ∷ []) none_heard,
    once,
    refl,
  )
