-- ===== src/Delay/Deadline.antt =====
-- A wait ends: at its deadline, or by a stop.
use thorium.Prelude.{ℕ, suc, ◌+◌, ◌-◌, ◌≤◌, ◌<◌, ◌≡◌, min, Bool, true, false, ◌&&◌, Text}
use thorium.Delay.{Waiting, DelayEnd, returned, interrupted, out_of_fuel, Turn, ends, sleeps, slice}

-- How a delay ends whose last look at the stop flag is that of a turn: it returns, with no stop to
-- heed, between the deadline and so many ticks later, or a stop that it heeds interrupts it by then.
abbrev EndsAt : (ℕ → Bool) → ℕ → ℕ → ℕ → DelayEnd × Waiting → Type 0
EndsAt heeded deadline most turn (returned, s) =
    (heeded turn ≡ false) × (deadline ≤ s.now) × (s.now ≤ deadline + most)
EndsAt heeded deadline most turn (interrupted, s) = (heeded turn ≡ true) × (s.now ≤ deadline + most)
EndsAt heeded deadline most turn (out_of_fuel, s) = ⊥

-- It ends so at the first turn with a stop to heed, if it is not over before.
pub record InTime (heeded : ℕ → Bool) (deadline most first : ℕ) (r : DelayEnd × Waiting)
    : Type 0 where
  pub last : ℕ
  pub not_before : first ≤ last
  pub unheeded : (turn : ℕ) → first ≤ turn → turn < last → heeded turn ≡ false
  pub in_time : EndsAt heeded deadline most last r

module _ (iso : ℕ → Text) (wall : ℕ → ℕ) (describe : ℕ → Text) (seconds : ℕ → ℕ) (armed : Bool)
    (requested : ℕ → Bool) (late : ℕ → ℕ) where
  abbrev pub heeded : ℕ → Bool
  heeded turn = armed && requested turn

  -- A turn ends in time, or gets a slice nearer to the deadline, or to it.
  abbrev Nearer : ℕ → ℕ → ℕ → Waiting → Turn → Type 0
  Nearer deadline most turn s (ends r) = EndsAt heeded deadline most turn r
  Nearer deadline most turn s (sleeps after) =
      (heeded turn ≡ false)
      × (suc s.now ≤ deadline)
      × (after.now ≡ s.now + min slice (deadline - s.now) + late turn)
