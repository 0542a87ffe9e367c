-- ===== src/Tests/Ict.antt =====
-- INVITE client transactions at concrete inputs.
use belle_sip.Prelude.{Reach, here, next, refl, true, none, some, arith}
use belle_sip.Transaction.Base.{State, init, calling, completed, terminated, invite}
use belle_sip.Transaction.Ict.{Ict, ict_send_request, ict_on_response}
use belle_sip.Transaction.Ict.Invariant.{Step, send, receive, Inv}
use belle_sip.Transaction.Ict.Traces.{Notices, IsNew, ict_invariant, ict-Notices}
use belle_sip.Tests.Data.{answer_of, base_of}

abbrev call_in : State → Ict
call_in s = record {
  base = base_of s invite true none;
  a = none;
  b = none;
  d = none;
  m = none;
  ack = none;
}

call-IsNew : IsNew (call_in init)
call-IsNew = record {
  initial = refl;
  bare = (refl, refl, refl, refl, refl);
  silent = refl;
  connected = refl;
  untimed = refl;
  inviting = refl;
}

abbrev sent : Ict
sent = ict_send_request (call_in init)

history :
    Reach Step
      (call_in init)
      (ict_on_response (ict_on_response sent (answer_of 180)) (answer_of 486))
history =
    next (next (next here (send (call_in init) refl)) (receive sent (answer_of 180)))
      (receive (ict_on_response sent (answer_of 180)) (answer_of 486))

-- the request, a ringing, a refusal
ict_invariant_example : Inv (ict_on_response (ict_on_response sent (answer_of 180)) (answer_of 486))
ict_invariant_example = ict_invariant call-IsNew history

ict-Notices_example :
    Notices (ict_on_response (ict_on_response sent (answer_of 180)) (answer_of 486))
ict-Notices_example = ict-Notices call-IsNew history

ended-Inv : Inv (call_in terminated)
ended-Inv = ground arith

abbrev ringing : Ict
ringing = record (call_in calling) { a = some 500; b = some 32000 }

abbrev refused : Ict
refused = record (call_in completed) { d = some 32000; ack = some (answer_of 486) }
