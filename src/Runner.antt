-- ===== src/Runner.antt =====
-- framework/runner/src/main.cpp: how a run goes through its passes, groups, tests and hooks, and
-- framework/core/include/core/catalog/test_catalog.hpp. Scripts and hooks are functions on the state of
-- the run, whose rest is an abstract world that also gives the clock. `std::to_string` and the spelling
-- of the time are arguments. What other threads have requested by each look at the stop flag is a list.
-- The opening of logs and streams, and what is printed, are left out.
pub mod Loops
pub mod Facts
pub mod Brackets
pub mod Tests
pub mod Groups
pub mod Passes
pub mod Verdicts
pub mod Stops
pub mod Examples
use thorium.Prelude.{
  ℕ, zero, suc, ◌+◌, ◌-◌, ◌^◌, Bool, true, false, not, ◌&&◌, ◌||◌, Option, none, some, List, [],
  ◌∷◌, ◌++◌, Text, text, text_eq, ◌==◌, any, if◌then◌else◌, has_value,
}
use thorium.Journal.Records.{Verb, verify, note, JournalRecord, RunInfo}
use thorium.Journal.{Journal, begin_phase, end_phase, post, max_journal_value_length}
use thorium.Control.StopRequest.{StopReason, StopState, request_stop, stop_now}

pub record RunState (W : Type 0) : Type 0 where
  pub journal : Journal
  pub stop : StopState
  pub arrivals : List (Option StopReason)
  pub world : W

-- How a script ends: it returns, `StopRequested` leaves it, or another exception does.
pub data ScriptEnd : Type 0 where
  finished stop_requested : ScriptEnd
  threw : Text → ScriptEnd

pub data HookEnd : Type 0 where
  answered : Bool → HookEnd
  hook_threw : Text → HookEnd

pub record TestCase (W : Type 0) : Type 0 where
  pub id : Text
  pub description : Text
  pub script : RunState W → ScriptEnd × RunState W

pub record Bracket (W : Type 0) : Type 0 where
  pub hook : Option (RunState W → HookEnd × RunState W)
  pub description : Text

pub record TestGroup (W : Type 0) : Type 0 where
  pub name : Text
  pub description : Text
  pub tests : List (TestCase W)
  pub setup : Bracket W
  pub teardown : Bracket W

-- The options that a run goes by.
pub record Options : Type 0 where
  pub selection : List Text
  pub repeat : Option ℕ
  pub until_failure : Bool
  pub skeleton : Bool

-- A block is running with its `allPassed`, has returned, or is left by an exception.
pub data Progress (W : Type 0) : Type 0 where
  running : Bool → RunState W → Progress W
  returned : Bool → RunState W → Progress W
  escaped : Text → Bool → RunState W → Progress W

abbrev pub is_empty {ℓ} : {A : Type ℓ} → List A → Bool
is_empty [] = true
is_empty (_ ∷ _) = false

unfoldable pub is_selected : Text → List Text → Bool
is_selected id selection = is_empty selection || any (λ t. t == id) selection

abbrev pub setup_phase : Text
setup_phase = text "setup"

abbrev pub teardown_phase : Text
teardown_phase = text "teardown"

module _ {W : Type 0} where
  unfoldable pub any_selected : TestGroup W → List Text → Bool
  any_selected group selection = any (λ t. is_selected t.id selection) group.tests

  abbrev pub with_journal : (Journal → Journal) → RunState W → RunState W
  with_journal f s = record s { journal = f s.journal }

  abbrev pub with_stop : (StopState → StopState) → RunState W → RunState W
  with_stop f s = record s { stop = f s.stop }

  -- What the other threads have done since the last look.
  abbrev pub arrive : RunState W → List (Option StopReason) → RunState W
  arrive s [] = s
  arrive s (none ∷ rest) = record s { arrivals = rest }
  arrive s (some why ∷ rest) = record s { arrivals = rest; stop = request_stop why s.stop }

  abbrev pub look : RunState W → Bool × RunState W
  look s = let (stopping, stop) = stop_now s.stop in (stopping, record s { stop = stop })

  -- `core::stopNow()`
  unfoldable pub poll : RunState W → Bool × RunState W
  poll s = look (arrive s s.arrivals)

  abbrev pub hook_of :
      Text → Text → Option (RunState W → HookEnd × RunState W) → RunState W → HookEnd × RunState W
  hook_of phase description none s = (answered true, s)
  hook_of phase description (some hook) s =
      let (end, after) = hook (with_journal (begin_phase phase description) s) in
      (end, with_journal end_phase after)

  -- `runHook`; the scope of the phase ends however the hook does.
  unfoldable pub run_hook : Bracket W → Text → RunState W → HookEnd × RunState W
  run_hook bracket phase s = hook_of phase bracket.description bracket.hook s

module _ {W : Type 0} (iso : ℕ → Text) (clock : W → ℕ) where
  -- `journal().post( JournalRecord{ .Method, .Subject, .Detail, .Value, .Passed })`
  abbrev pub plain_record : Verb → Text → Text → Text → Option Bool → JournalRecord
  plain_record method subject detail value passed = record {
    method = method;
    subject = subject;
    subject_group = [];
    detail = detail;
    instrument = [];
    value = value;
    numeric = none;
    unit = [];
    criterion_text = [];
    passed = passed;
  }

  abbrev pub posted : JournalRecord → RunState W → RunState W
  posted r s = with_journal (post iso (clock s.world) r) s

  unfoldable pub post_note : Text → Text → RunState W → RunState W
  post_note subject detail s = posted (plain_record note subject detail [] none) s

  -- `core::Fail( reason)`
  unfoldable pub fail : Text → RunState W → RunState W
  fail reason s = posted (plain_record verify [] reason (text "<unchecked>") (some false)) s

  -- `TeardownGuard::fail`
  abbrev pub teardown_failed : Text → Text → RunState W → Bool × RunState W
  teardown_failed subject what s = (false, post_note subject what s)

  abbrev pub teardown_ended : Text → Text → Bool → HookEnd × RunState W → Bool × RunState W
  teardown_ended label subject all_passed (answered true, s) = (all_passed, s)
  teardown_ended label subject all_passed (answered false, s) =
      teardown_failed subject (label ++ text " reported failure") s
  teardown_ended label subject all_passed (hook_threw what, s) =
      teardown_failed subject (label ++ (text " threw: " ++ what)) s

  abbrev pub teardown_of :
      Text
      → Text
      → Text
      → Option (RunState W → HookEnd × RunState W)
      → Bool
      → RunState W
      → Bool × RunState W
  teardown_of label subject description none all_passed s = (all_passed, s)
  teardown_of label subject description (some hook) all_passed s =
      let (passed, after) =
        teardown_ended label subject all_passed
          (hook (with_journal (begin_phase teardown_phase description) s)) in
      (passed, with_journal end_phase after)

  -- The destructor of `TeardownGuard`.
  unfoldable pub tear_down : Bracket W → Text → Text → Bool → RunState W → Bool × RunState W
  tear_down bracket label subject all_passed s =
      teardown_of label subject bracket.description bracket.hook all_passed s

  -- The guard at the end of its block, which runs on every way out.
  abbrev pub guarded : Bracket W → Text → Text → Progress W → Progress W
  guarded bracket label subject (running passed s) =
      let (passed', s') = tear_down bracket label subject passed s in running passed' s'
  guarded bracket label subject (returned passed s) =
      let (passed', s') = tear_down bracket label subject passed s in returned passed' s'
  guarded bracket label subject (escaped what passed s) =
      let (passed', s') = tear_down bracket label subject passed s in escaped what passed' s'
