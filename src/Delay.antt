-- ===== src/Delay.antt =====
-- framework/core/src/verbs/delay.cpp: the verb `Delay`. Times are ticks of the steady clock, a nanosecond
-- each, and a negative duration is the zero that the code makes of it. What the clock adds to each sleep,
-- and whether a stop has been requested at each look, are functions of the number of the turn. The
-- spelling of a time and its number of seconds are arguments.
pub mod Deadline
mod Examples
use thorium.Prelude.{
  ℕ, zero, suc, ◌+◌, ◌-◌, ◌*◌, ◌/◌, min, Bool, true, false, ◌&&◌, none, some, List, [], ◌∷◌, ◌++◌,
  Text, text, leb, if◌then◌else◌,
}
use thorium.Journal.Records.{delay, JournalRecord}
use thorium.Journal.{Journal, post}
use thorium.Runner.{is_empty}

pub record Waiting : Type 0 where
  pub journal : Journal
  pub now : ℕ

-- How the verb ends: it returns, or throws `StopRequested`.
pub data DelayEnd : Type 0 where
  returned interrupted out_of_fuel : DelayEnd

-- A turn of the loop ends the verb, or sleeps.
pub data Turn : Type 0 where
  ends : DelayEnd × Waiting → Turn
  sleeps : Waiting → Turn

-- `kSlice`, 20 ms.
abbrev pub slice : ℕ
slice = 20000000

-- Turns that are enough for a wait of that length.
abbrev pub enough : ℕ → ℕ
enough length = length / slice + 2

-- The wall clock of a post is a function of the steady one.
module _ (iso : ℕ → Text) (wall : ℕ → ℕ) (describe : ℕ → Text) (seconds : ℕ → ℕ) (armed : Bool)
    (requested : ℕ → Bool) (late : ℕ → ℕ) where
  abbrev pub delay_record : Text → Text → ℕ → JournalRecord
  delay_record reason detail length = record {
    method = delay;
    subject = if is_empty reason then text "delay" else reason;
    subject_group = [];
    detail = detail;
    instrument = [];
    value = describe length;
    numeric = some (seconds length);
    unit = text "s";
    criterion_text = [];
    passed = none;
  }

  unfoldable pub post_delay : Text → Text → ℕ → Waiting → Waiting
  post_delay reason detail length s = record s {
    journal = post iso (wall s.now) (delay_record reason detail length) s.journal;
  }

  -- `sleep_for( std::min( kSlice, deadline - now))`
  abbrev pub slept : ℕ → ℕ → Waiting → Waiting
  slept turn deadline s = record s { now = s.now + min slice (deadline - s.now) + late turn }

  abbrev pub interruption : Text → ℕ → ℕ → Waiting → DelayEnd × Waiting
  interruption reason length start s = (
    interrupted,
    post_delay reason (text "interrupted by a stop request after " ++ describe (s.now - start))
        length s,
  )

  unfoldable pub turn_of : Text → ℕ → ℕ → ℕ → ℕ → Waiting → Turn
  turn_of reason length start deadline turn s =
      if armed && requested turn
      then ends (interruption reason length start s)
      else if leb deadline s.now
      then ends (returned, s)
      else sleeps (slept turn deadline s)

  -- `for( ;;)`
  unfoldable pub wait : ℕ → Text → ℕ → ℕ → ℕ → ℕ → Waiting → DelayEnd × Waiting
  wait zero reason length start deadline turn s = (out_of_fuel, s)
  wait (suc fuel) reason length start deadline turn s =
      elim (turn_of reason length start deadline turn s) [
        | ends r ↦ r
        | sleeps after ↦ wait fuel reason length start deadline (suc turn) after
      ]

  -- `DelayEngine::operator()`, with whether the bench is attached.
  unfoldable pub delay_for : Bool → ℕ → Text → Waiting → DelayEnd × Waiting
  delay_for false length reason s =
      (returned, post_delay reason (text "skipped: no bench attached") length s)
  delay_for true length reason s =
      wait (enough length) reason length s.now (s.now + length) 0
        (post_delay reason (text "waiting") length s)
