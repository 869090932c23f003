-- ===== src/Fabric/Examples.antt =====
-- Tests of the fabric, and its theorems at concrete inputs: a bench that refuses channel 99.
use thorium.Prelude.{
  ℕ, ◌≡◌, refl, Bool, true, false, List, [], ◌∷◌, ◌++◌, some, arith, ltb, none, ◌≢◌, eqb,
  if◌then◌else◌, ◌==◌,
}
use thorium.Prelude.Dict.{lookup, insert, erase, lookup-nil}
use thorium.Fabric.Elements.{SwitchElementId, element_beq, element_eq}
use thorium.Fabric.{
  Outcome, returned, threw, SwitchDriver, SwitchFabric, is_closed, connect, connect_from, close,
  open_element, undo, disconnect, disconnect_from, call, RouteCall, connects, disconnects, run,
}
use thorium.Fabric.Routes.{Connects, connect-Connects}
use thorium.Fabric.History.{holds, run-is_closed}
use thorium.Fabric.Rig.{SwitchingInstrument, Rig, drive, on_first, first_in, drive-first}
use thorium.Fabric.Cards.{racal1260_45, keysight34932a, hop, crosspoint, analog_bus, spec_of}
use thorium.Fabric.Cards.Numbering.{element, crosspoint_digits, analog_bus_relays}
use thorium.Fabric.Bench.{has_thrown, Obeys, InStep, run-InStep}

abbrev Relays : Type 0
Relays = SwitchElementId → Bool

abbrev set_relay : SwitchElementId → Bool → Relays → Relays
set_relay id state b j = if id == j then state else b j

abbrev bench_driver : SwitchDriver Relays
bench_driver = record {
  close =
      λ id b. if eqb id.channel 99 then (threw "refused", b) else (returned, set_relay id true b);
  open_relay = λ id b. (returned, set_relay id false b);
}

abbrev all_open : SwitchFabric Relays
all_open = record { driver = some bench_driver; use_count = []; bench = λ _. false }

abbrev relay : ℕ → ℕ → SwitchElementId
relay device channel = record { device = device; channel = channel }

-- A supply held on a point, a meter that shares its first relay, a refused route, the supply's
-- release.
abbrev calls : List RouteCall
calls =
    connects (relay 0 1 ∷ relay 1 2 ∷ [])
    ∷ connects (relay 0 1 ∷ relay 2 3 ∷ [])
    ∷ connects (relay 2 4 ∷ relay 2 99 ∷ [])
    ∷ disconnects (relay 0 1 ∷ relay 1 2 ∷ [])
    ∷ []

-- The run with everything that it calls opened.
after_calls : List Outcome × SwitchFabric Relays
unfolding run call connect connect_from close open_element undo disconnect disconnect_from lookup
    insert erase element_beq
after_calls = run calls all_open

outcomes : after_calls.0 ≡ returned ∷ returned ∷ threw "refused" ∷ returned ∷ []
unfolding after_calls
outcomes = refl

shared_relay_stays : is_closed (relay 0 1) after_calls.1 ≡ true
unfolding after_calls is_closed
shared_relay_stays = refl

refused_route_leaves_nothing : is_closed (relay 2 4) after_calls.1 ≡ false
unfolding after_calls is_closed
refused_route_leaves_nothing = refl

-- A bench that also tells of each relay whether the last call for it threw. The relay of channel 3
-- sticks: it is closed, and an open of it throws.
record Logged : Type 0 where
  relays : Relays
  failed : Relays

abbrev log_call : SwitchElementId → Outcome → Relays → Relays
log_call id r b = set_relay id (has_thrown r) b

abbrev moves_to : SwitchElementId → Bool → Logged → Outcome × Logged
moves_to id state b = (
  returned,
  record { relays = set_relay id state b.relays; failed = log_call id returned b.failed },
)

abbrev stuck : SwitchElementId → Logged → Outcome × Logged
stuck id b = (threw "refused", record b { failed = log_call id (threw "refused") b.failed })

abbrev sticking_driver : SwitchDriver Logged
sticking_driver = record {
  close = λ id b. if eqb id.channel 99 then stuck id b else moves_to id true b;
  open_relay = λ id b. if eqb id.channel 3 then stuck id b else moves_to id false b;
}

sticking_driver-Obeys : Obeys sticking_driver (λ b j. b.relays j) (λ b j. b.failed j)
sticking_driver-Obeys = record {
  close_sets = λ id b j e. ground arith;
  close_others = λ id b x j e f. ground arith;
  close_logs = λ id b j. ground arith;
  open_clears = λ id b j e. ground arith;
  open_others = λ id b x j e f. ground arith;
  open_logs = λ id b j. ground arith;
}

abbrev sticking : SwitchFabric Logged
sticking = record {
  driver = some sticking_driver;
  use_count = [];
  bench = record { relays = λ _. false; failed = λ _. false };
}

sticking-InStep : InStep sticking_driver (λ b j. b.relays j) (λ b j. b.failed j) sticking
unfolding is_closed
sticking-InStep = record {
  driven = refl;
  off_books = λ j h. rw (lookup-nil {V = ℕ} j);
  agrees = λ j h. rw (lookup-nil {V = ℕ} j);
}

-- The meter is released as well, and its relay on channel 3 sticks.
abbrev more_calls : List RouteCall
more_calls = calls ++ disconnects (relay 0 1 ∷ relay 2 3 ∷ []) ∷ []

after_sticking : List Outcome × SwitchFabric Logged
unfolding run call connect connect_from close open_element undo disconnect disconnect_from lookup
    insert erase element_beq
after_sticking = run more_calls sticking

stuck_relay_stays_closed : after_sticking.1.bench.relays (relay 2 3) ≡ true
unfolding after_sticking
stuck_relay_stays_closed = refl

stuck_relay_failed : after_sticking.1.bench.failed (relay 2 3) ≡ true
unfolding after_sticking
stuck_relay_failed = refl

connect-Connects_example :
    Connects
      (relay 2 4 ∷ relay 2 99 ∷ [])
      all_open
      (relay 2 4)
      (connect (relay 2 4 ∷ relay 2 99 ∷ []) all_open)
connect-Connects_example = connect-Connects (relay 2 4 ∷ relay 2 99 ∷ []) all_open (relay 2 4)

run-is_closed_example :
    is_closed (relay 0 1) (run calls all_open).1
    ≡ ltb 0 (holds (relay 0 1) 0 calls (run calls all_open).0)
run-is_closed_example = run-is_closed calls all_open (relay 0 1) refl

run-InStep_example :
    InStep sticking_driver (λ b j. b.relays j) (λ b j. b.failed j) (run more_calls sticking).1
run-InStep_example =
    run-InStep sticking_driver (λ b j. b.relays j) (λ b j. b.failed j) sticking_driver-Obeys
      more_calls sticking sticking-InStep

channel_2315 : hop racal1260_45 2 2315 ≢ none
unfolding hop spec_of
channel_2315 e = cc

crosspoint_digits_example : crosspoint racal1260_45 2 2 3 15 ≡ hop racal1260_45 2 2315
crosspoint_digits_example = crosspoint_digits 2 2315 channel_2315

analog_bus_relays_example : analog_bus keysight34932a 1 3 ≡ some (element 1 923)
analog_bus_relays_example = analog_bus_relays 1 3 (omega arith)

-- An instrument that closes and opens its relays without fail.
abbrev mainframe : ℕ → SwitchingInstrument Relays
mainframe box = record {
  box = box;
  close_on_card = λ card channel b. (returned, set_relay (relay card channel) true b);
  open_on_card = λ card channel b. (returned, set_relay (relay card channel) false b);
}

-- Device 4 is card 1 of box 8; two instruments stand in that box.
abbrev rig : Rig Relays
rig = record {
  is_rf_mux = λ device. false;
  card_of = λ device. if eqb device 4 then some 1 else none;
  box_of = λ device. 8;
  instruments = mainframe 7 ∷ mainframe 8 ∷ mainframe 8 ∷ [];
}

drive-first_example :
    drive rig (relay 4 923) true (λ _. false)
    ≡ on_first true (first_in 8 rig.instruments) 1 923 (λ _. false)
drive-first_example = drive-first rig (relay 4 923) true 1 (λ _. false) refl
