-- ===== src/Journal/Verdict.antt =====
-- The verdict of a test: `endTest` against the records that were posted in the test.
use thorium.Prelude.{
  ℕ, ◌+◌, ◌<◌, ◌≤◌, ◌≡◌, refl, Bool, true, false, not, ◌&&◌, ◌||◌, Option, none, some, List, [],
  ◌∷◌, Text, eqb, ltb, length, arith,
}
use thorium.Journal.Records.{JournalRecord}
use thorium.Journal.{
  Journal, size_mod, tell, begin_test, counted, post, unchecked, check_any, end_test,
}

abbrev pub is_check : Option Bool → Bool
is_check none = false
is_check (some _) = true

abbrev pub is_failure : Option Bool → Bool
is_failure none = false
is_failure (some passed) = not passed

-- The posts of a test, each with the time that it is made at.
abbrev pub Posts : Type 0
Posts = List (ℕ × JournalRecord)

abbrev pub any_check : Posts → Bool
any_check [] = false
any_check ((now, r) ∷ rs) = is_check r.passed || any_check rs

abbrev pub any_failure : Posts → Bool
any_failure [] = false
any_failure ((now, r) ∷ rs) = is_failure r.passed || any_failure rs

abbrev one_if : Bool → ℕ
one_if true = 1
one_if false = 0

checks : Posts → ℕ
checks [] = 0
checks ((now, r) ∷ rs) = one_if (is_check r.passed) + checks rs

failures : Posts → ℕ
failures [] = 0
failures ((now, r) ∷ rs) = one_if (is_failure r.passed) + failures rs

any_check-checks : (rs : Posts) → ltb 0 (checks rs) ≡ any_check rs
unfolding checks
any_check-checks [] = refl
any_check-checks ((now, r) ∷ rs) = ground (arith, any_check-checks rs)

any_failure-failures : (rs : Posts) → eqb (failures rs) 0 ≡ not (any_failure rs)
unfolding failures
any_failure-failures [] = refl
any_failure-failures ((now, r) ∷ rs) = ground (arith, any_failure-failures rs)

failures-le-checks : (rs : Posts) → failures rs ≤ checks rs
unfolding failures checks
failures-le-checks [] = omega arith
failures-le-checks ((now, r) ∷ rs) = ground (arith, failures-le-checks rs)

module _ (iso : ℕ → Text) where
  pub posts : Posts → Journal → Journal
  posts [] j = j
  posts ((now, r) ∷ rs) j = posts rs (post iso now r j)

  record Counts (rs : Posts) (j : Journal) (k : Journal) : Type 0 where
    open_still : k.test_open ≡ true
    checked : k.test_checks ≡ j.test_checks + checks rs
    failed : k.test_failures ≡ j.test_failures + failures rs

  post-Counts :
      (now : ℕ) (r : JournalRecord) (j : Journal)
      → j.test_open ≡ true
      → j.test_checks + 1 < size_mod
      → j.test_failures + 1 < size_mod
      → Counts ((now, r) ∷ []) j (post iso now r j)
  unfolding post counted tell checks failures
  post-Counts now r j o c f = ground arith

  posts-Counts :
      (rs : Posts) (j : Journal)
      → j.test_open ≡ true
      → j.test_checks + length rs < size_mod
      → j.test_failures + length rs < size_mod
      → Counts rs j (posts rs j)
  unfolding posts checks failures
  posts-Counts [] j o c f = record { open_still = o; checked = omega arith; failed = omega arith }
  posts-Counts ((now, r) ∷ rs) j o c f =
      ground (arith, post-Counts now r j o, posts-Counts rs (post iso now r j))

  begun-Counts :
      (test description : Text) (rs : Posts) (j : Journal)
      → length rs < size_mod
      → ((posts rs (begin_test test description j)).test_open ≡ true)
        × ((posts rs (begin_test test description j)).test_checks ≡ checks rs)
        × ((posts rs (begin_test test description j)).test_failures ≡ failures rs)
  unfolding begin_test tell
  begun-Counts test description rs j h =
      let c = posts-Counts rs (begin_test test description j) refl (omega arith) (omega arith) in
      (c.open_still, omega (arith, c.checked), omega (arith, c.failed))

  -- `endTest` of an open test, where no more checks failed than were made.
  end_test-counts :
      (now : ℕ) (k : Journal)
      → k.test_open ≡ true
      → k.test_failures ≤ k.test_checks
      → (end_test iso now k).0 ≡ (ltb 0 k.test_checks && eqb k.test_failures 0)
  unfolding end_test check_any post counted tell unchecked
  end_test-counts now k o le = ground arith

  -- A test passes exactly when at least one check was posted in it and none of them failed, as long
  -- as fewer than 2 ^ 64 records were posted.
  pub end_test-verdict :
      (test description : Text) (rs : Posts) (now : ℕ) (j : Journal)
      → length rs < size_mod
      → (end_test iso now (posts rs (begin_test test description j))).0
        ≡ (any_check rs && not (any_failure rs))
  end_test-verdict test description rs now j h =
      let (still, checked, failed) = begun-Counts test description rs j h in
      rw (
        end_test-counts now (posts rs (begin_test test description j)) still
            (omega (arith, checked, failed, failures-le-checks rs)),
        checked,
        failed,
        any_check-checks rs,
        any_failure-failures rs,
      )
