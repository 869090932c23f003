-- ===== src/Control/StopRequest/Interleaving.antt =====
-- Any number of requesters and pollers, interleaved at every atomic access.
use thorium.Prelude.{
  ◌≡◌, ◌≢◌, inl, inr, refl, sym, subst, ◌∙◌, Bool-cases, Bool, true, false, List, [], ◌∷◌, arith,
}
use thorium.Control.StopRequest.{
  StopReason, no_reason, operator, console_gone, StopState, exchange_reason, set_reason,
  set_requested, honour_if, request_stop, stop_now,
}

-- A requester has not begun, stands between its two accesses, or has stored the flag. A poller has
-- not begun, stands between reading the flag and storing `gStopHonoured`, or is done.
pub data Thread : Type 0 where
  requests reasoned : StopReason → Thread
  stored polls polled_true finished : Thread

-- One atomic access of one thread.
pub data Access : Thread → StopState → Thread → StopState → Type 0 where
  exchange : (r : StopReason) (s : StopState) → Access (requests r) s (reasoned r) (set_reason r s)
  store : (r : StopReason) (s : StopState) → Access (reasoned r) s stored (set_requested s)
  read_set : (s : StopState) → s.stop_requested ≡ true → Access polls s polled_true s
  read_clear : (s : StopState) → s.stop_requested ≡ false → Access polls s finished s
  honour : (s : StopState) → Access polled_true s finished (record s { stop_honoured = true })

-- A step of the whole: one access of one of the threads.
pub data Step : List Thread → StopState → List Thread → StopState → Type 0 where
  here :
      {t u : Thread} {s s' : StopState} {ts : List Thread}
      → Access t s u s'
      → Step (t ∷ ts) s (u ∷ ts) s'
  there :
      {t : Thread} {ts us : List Thread} {s s' : StopState}
      → Step ts s us s'
      → Step (t ∷ ts) s (t ∷ us) s'

pub data Reach (ts : List Thread) (s : StopState) : List Thread → StopState → Type 0 where
  start : Reach ts s ts s
  next :
      {us vs : List Thread} {s' s'' : StopState}
      → Reach ts s us s'
      → Step us s' vs s''
      → Reach ts s vs s''

-- What a thread's place says of the state. A request always gives a reason.
abbrev pub Consistent : Thread → StopState → Type 0
Consistent (requests r) s = r ≢ no_reason
Consistent (reasoned r) s = (r ≢ no_reason) × (s.stop_reason ≢ no_reason)
Consistent stored s = s.stop_requested ≡ true
Consistent polls s = Unit
Consistent polled_true s = s.stop_requested ≡ true
Consistent finished s = Unit

abbrev pub AllConsistent : List Thread → StopState → Type 0
AllConsistent [] s = Unit
AllConsistent (t ∷ ts) s = Consistent t s × AllConsistent ts s

-- Who sees the flag sees a reason, and only a requested stop is honoured.
pub record IsSound (s : StopState) : Type 0 where
  pub has_reason : s.stop_requested ≡ true → s.stop_reason ≢ no_reason
  pub was_requested : s.stop_honoured ≡ true → s.stop_requested ≡ true

-- What no access of a thread takes back.
record Grows (s s' : StopState) : Type 0 where
  keeps_request : s.stop_requested ≡ true → s'.stop_requested ≡ true
  keeps_reason : s.stop_reason ≢ no_reason → s'.stop_reason ≡ s.stop_reason

Access-Grows : {t u : Thread} {s s' : StopState} → Access t s u s' → Grows s s'
unfolding exchange_reason
Access-Grows (exchange no_reason s) = record {
  keeps_request = λ e. e;
  keeps_reason = λ h. ground arith;
}
Access-Grows (exchange r s) = record { keeps_request = λ e. e; keeps_reason = λ h. ground arith }
Access-Grows (store r s) = record { keeps_request = λ e. refl; keeps_reason = λ h. refl }
Access-Grows (read_set s e) = record { keeps_request = λ h. h; keeps_reason = λ h. refl }
Access-Grows (read_clear s e) = record { keeps_request = λ h. h; keeps_reason = λ h. refl }
Access-Grows (honour s) = record { keeps_request = λ h. h; keeps_reason = λ h. refl }

exchange_reason-ne : (old r : StopReason) → r ≢ no_reason → exchange_reason old r ≢ no_reason
unfolding exchange_reason
exchange_reason-ne no_reason r h = h
exchange_reason-ne operator r h = λ e. cc
exchange_reason-ne console_gone r h = λ e. cc

Access-Consistent :
    {t u : Thread} {s s' : StopState}
    → Access t s u s'
    → Consistent t s
    → IsSound s
    → Consistent u s' × IsSound s'
Access-Consistent (exchange r s) c i = (
  (c, exchange_reason-ne s.stop_reason r c),
  record {
    has_reason = λ e. exchange_reason-ne s.stop_reason r c;
    was_requested = i.was_requested;
  },
)
Access-Consistent (store r s) c i =
    (refl, record { has_reason = λ e. c.1; was_requested = λ e. refl })
Access-Consistent (read_set s e) c i = (e, i)
Access-Consistent (read_clear s e) c i = (tt, i)
Access-Consistent (honour s) c i =
    (tt, record { has_reason = i.has_reason; was_requested = λ e. c })

Consistent-Grows : (t : Thread) {s s' : StopState} → Grows s s' → Consistent t s → Consistent t s'
Consistent-Grows (requests r) g c = c
Consistent-Grows (reasoned r) g c = (c.0, λ e. c.1 (sym (g.keeps_reason c.1) ∙ e))
Consistent-Grows stored g c = g.keeps_request c
Consistent-Grows polls g c = tt
Consistent-Grows polled_true g c = g.keeps_request c
Consistent-Grows finished g c = tt

AllConsistent-Grows :
    (ts : List Thread) {s s' : StopState} → Grows s s' → AllConsistent ts s → AllConsistent ts s'
AllConsistent-Grows [] g c = tt
AllConsistent-Grows (t ∷ ts) g c = (Consistent-Grows t g c.0, AllConsistent-Grows ts g c.1)

Step-Grows : {ts us : List Thread} {s s' : StopState} → Step ts s us s' → Grows s s'
Step-Grows (here a) = Access-Grows a
Step-Grows (there st) = Step-Grows st

Step-IsSound :
    {ts us : List Thread} {s s' : StopState}
    → Step ts s us s'
    → AllConsistent ts s
    → IsSound s
    → AllConsistent us s' × IsSound s'
Step-IsSound (here {ts = rest} a) c i =
    let (cu, sound) = Access-Consistent a c.0 i in
    ((cu, AllConsistent-Grows rest (Access-Grows a) c.1), sound)
Step-IsSound (there {t = t} st) c i =
    let (rest, sound) = Step-IsSound st c.1 i in
    ((Consistent-Grows t (Step-Grows st) c.0, rest), sound)

Reach-AllConsistent :
    {ts : List Thread} {s : StopState} {us : List Thread} {s' : StopState}
    → AllConsistent ts s
    → IsSound s
    → Reach ts s us s'
    → AllConsistent us s' × IsSound s'
Reach-AllConsistent c i start = (c, i)
Reach-AllConsistent c i (next r st) =
    let (c', i') = Reach-AllConsistent c i r in Step-IsSound st c' i'

-- Whatever the interleaving of requesters that each give a reason and of pollers, in every state
-- that is reached a set flag has a reason beside it, and only a requested stop has been honoured.
pub Reach-IsSound :
    {ts : List Thread} {s : StopState} {us : List Thread} {s' : StopState}
    → AllConsistent ts s
    → IsSound s
    → Reach ts s us s'
    → IsSound s'
Reach-IsSound c i r = (Reach-AllConsistent c i r).1

-- The first reason that is stored is the one that stays, whatever is requested after it.
pub Reach-stop_reason :
    {ts : List Thread} {s : StopState} {us : List Thread} {s' : StopState}
    → Reach ts s us s'
    → s.stop_reason ≢ no_reason
    → s'.stop_reason ≡ s.stop_reason
Reach-stop_reason start h = refl
Reach-stop_reason (next r st) h =
    let before = Reach-stop_reason r h in
    (Step-Grows st).keeps_reason (λ e. h (sym before ∙ e)) ∙ before

-- A whole call of `requestStop` and one of `stopNow` are runs of their threads' accesses.
pub request_stop-Reach :
    (r : StopReason) (s : StopState) → Reach (requests r ∷ []) s (stored ∷ []) (request_stop r s)
unfolding request_stop
request_stop-Reach r s = next (next start (here (exchange r s))) (here (store r _))

pub stop_now-Reach : (s : StopState) → Reach (polls ∷ []) s (finished ∷ []) (stop_now s).1
unfolding stop_now
stop_now-Reach s =
    let result = λ (b : Bool). Reach (polls ∷ []) s (finished ∷ []) (honour_if b s).1 in
    elim (Bool-cases s.stop_requested) [
      | inl e ↦ subst result (sym e) (next (next start (here (read_set s e))) (here (honour s)))
      | inr e ↦ subst result (sym e) (next start (here (read_clear s e)))
    ]
