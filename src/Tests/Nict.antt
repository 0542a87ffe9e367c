-- ===== src/Tests/Nict.antt =====
-- Non-INVITE client transactions at concrete inputs.
use belle_sip.Prelude.{◌≡◌, Reach, here, next, refl, true, none, some, count_if, arith}
use belle_sip.Transaction.Base.{State, init, trying, Method, bye, is_request}
use belle_sip.Transaction.Nict.{Nict, nict_send_request, nict_on_response}
use belle_sip.Transaction.Nict.Invariant.{
  Step, send, receive, Inv, Notices, IsNew, nict_invariant, nict-Notices,
}
use belle_sip.Transaction.Nict.Traces.{fire_E_times, timer_E_backoff}
use belle_sip.Tests.Data.{answer_of, base_of}

abbrev request_in : State → Method → Nict
request_in s m = record { base = base_of s m true none; f = none; e = none; k = none }

abbrev hangup : Nict
hangup = request_in init bye

hangup-IsNew : IsNew hangup
hangup-IsNew = record {
  initial = refl;
  bare = (refl, refl, refl);
  silent = refl;
  unmarked = refl;
  connected = refl;
}

abbrev sent : Nict
sent = nict_send_request hangup

abbrev answered : Nict
answered = nict_on_response sent (answer_of 200)

-- The request and its answer.
history : Reach Step hangup answered
history = next (next here (send hangup refl)) (receive sent (answer_of 200))

nict_invariant_example : Inv answered
nict_invariant_example = nict_invariant hangup-IsNew history

nict-Notices_example : Notices answered
nict-Notices_example = nict-Notices hangup-IsNew history

abbrev pending : Method → Nict
pending m = record (request_in trying m) { f = some 32000; e = some 500 }

pending-Inv : Inv (pending bye)
pending-Inv = ground arith

timer_E_backoff_example :
    ((fire_E_times 4 (pending bye)).base.state ≡ trying)
    × ((fire_E_times 4 (pending bye)).e ≡ some 4000)
    × (count_if is_request (fire_E_times 4 (pending bye)).base.log ≡ 4)
timer_E_backoff_example = timer_E_backoff 4 (pending bye) 500 4000 refl refl refl refl (omega arith)
