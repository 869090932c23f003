-- ===== src/Control/Examples.antt =====
-- The theorems of the stop request at a run where an operator's request and the end of the console
-- meet.
use thorium.Prelude.{◌≡◌, ◌≢◌, refl, true, false, List, [], ◌∷◌}
use thorium.Control.StopRequest.{
  no_reason, operator, console_gone, StopState, set_reason, set_requested, request_stop, stop_now,
  exchange_reason,
}
use thorium.Control.StopRequest.Interleaving.{
  Thread, requests, reasoned, stored, polls, exchange, store, here, there, Reach, start, next,
  IsSound, Reach-IsSound, Reach-stop_reason,
}

abbrev running : StopState
running = record {
  stop_requested = false;
  stop_reason = no_reason;
  stop_honoured = false;
  stop_armed = 0;
}

abbrev threads : List Thread
threads = requests operator ∷ requests console_gone ∷ polls ∷ []

abbrev after_operator : StopState
after_operator = set_reason operator running

abbrev after_both : StopState
after_both = set_requested (set_reason console_gone after_operator)

-- The operator's exchange comes first, and the other requester runs through before the operator's
-- store.
both_exchanged :
    Reach
      (reasoned operator ∷ requests console_gone ∷ polls ∷ [])
      after_operator
      (reasoned operator ∷ stored ∷ polls ∷ [])
      after_both
both_exchanged =
    next (next start (there (here (exchange console_gone after_operator))))
      (there (here (store console_gone (set_reason console_gone after_operator))))

from_running :
    Reach threads running (reasoned operator ∷ requests console_gone ∷ polls ∷ []) after_operator
from_running = next start (here (exchange operator running))

Reach-IsSound_example : IsSound after_operator
Reach-IsSound_example =
    Reach-IsSound ((λ e. cc), ((λ e. cc), (tt, tt)))
      (record { has_reason = λ e. cc; was_requested = λ e. cc }) from_running

operator_given : after_operator.stop_reason ≢ no_reason
unfolding exchange_reason
operator_given e = cc

Reach-stop_reason_example : after_both.stop_reason ≡ after_operator.stop_reason
Reach-stop_reason_example = Reach-stop_reason both_exchanged operator_given

stop_is_honoured : (stop_now (request_stop operator running)).1.stop_honoured ≡ true
unfolding stop_now request_stop
stop_is_honoured = refl
