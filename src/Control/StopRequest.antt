-- ===== src/Control/StopRequest.antt =====
-- framework/core/include/core/control/stop_request.hpp: the four atomics, and each function as the
-- atomic accesses that it makes, in its order. A signal handler and the threads may interleave
-- between any two of them.
pub mod Interleaving
use thorium.Prelude.{ℕ, ◌+◌, ◌-◌, Bool, true, false, ltb, if◌then◌else◌}

-- `enum class StopReason`
pub data StopReason : Type 0 where
  no_reason operator console_gone : StopReason

pub record StopState : Type 0 where
  pub stop_requested : Bool
  pub stop_reason : StopReason
  pub stop_honoured : Bool
  pub stop_armed : ℕ

-- `gStopReason.compare_exchange_strong( expected, reason)` with 0 expected.
unfoldable pub exchange_reason : StopReason → StopReason → StopReason
exchange_reason no_reason given = given
exchange_reason operator given = operator
exchange_reason console_gone given = console_gone

abbrev pub set_reason : StopReason → StopState → StopState
set_reason reason s = record s { stop_reason = exchange_reason s.stop_reason reason }

abbrev pub set_requested : StopState → StopState
set_requested s = record s { stop_requested = true }

unfoldable pub request_stop : StopReason → StopState → StopState
request_stop reason s = set_requested (set_reason reason s)

-- `stopNow` once it has read the flag.
abbrev pub honour_if : Bool → StopState → Bool × StopState
honour_if requested s = if requested then (true, record s { stop_honoured = true }) else (false, s)

unfoldable pub stop_now : StopState → Bool × StopState
stop_now s = honour_if s.stop_requested s

-- The constructor and the destructor of `StopArmed`.
unfoldable pub arm : StopState → StopState
arm s = record s { stop_armed = s.stop_armed + 1 }

unfoldable pub disarm : StopState → StopState
disarm s = record s { stop_armed = s.stop_armed - 1 }

pub stop_is_armed : StopState → Bool
stop_is_armed s = ltb 0 s.stop_armed

unfoldable pub clear_stop_request : StopState → StopState
clear_stop_request s = record s {
  stop_requested = false;
  stop_reason = no_reason;
  stop_honoured = false;
}
