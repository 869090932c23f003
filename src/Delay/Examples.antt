-- ===== src/Delay/Examples.antt =====
-- A delay of 50 ms on a clock that oversleeps by a tick.
use thorium.Prelude.{ℕ, ◌≡◌, refl, Bool, true, false, [], Text}
use thorium.Runner.Examples.{idle}
use thorium.Delay.{Waiting, delay_for, wait, turn_of, post_delay}

abbrev at_nine : Waiting
at_nine = record { journal = idle.journal; now = 9 }

abbrev iso : ℕ → Text
iso now = []

abbrev number : ℕ → ℕ
number n = n

abbrev requested : ℕ → Bool
requested turn = false

abbrev late : ℕ → ℕ
late turn = 1

-- Three sleeps, each a tick too long but the last, which is cut to what is left and a tick.
after_wait :
    (delay_for iso number iso number true requested late true 50000000 [] at_nine).1.now ≡ 50000010
unfolding delay_for wait turn_of post_delay
after_wait = refl
