-- ===== src/Tests/Ist.antt =====
-- INVITE server transactions at concrete inputs.
use belle_sip.Prelude.{◌≡◌, Reach, here, next, true, false, none, some, count_if, arith}
use belle_sip.Transaction.Base.{proceeding, completed, invite, ack, is_response}
use belle_sip.Transaction.Ist.{Ist, ist_new, ist_send_response, ist_on_request}
use belle_sip.Transaction.Ist.Invariant.{Step, answer, request, Inv, ist_invariant}
use belle_sip.Transaction.Ist.Traces.{answer_sends}
use belle_sip.Tests.Data.{defaults, udp, answer_of, base_of}

abbrev fresh : Ist
fresh = ist_new defaults 7 (some udp)

abbrev busy : Ist
busy = ist_send_response (some udp) (answer_of 486) fresh

-- A refusal and its ACK.
history : Reach Step fresh (ist_on_request ack true busy)
history = next (next here (answer fresh (some udp) (answer_of 486))) (request busy ack true)

ist_invariant_example : Inv (ist_on_request ack true busy)
ist_invariant_example = ist_invariant defaults 7 udp history

abbrev invited : Ist
invited = record {
  base = base_of proceeding invite false (some (answer_of 100));
  to_tag = 7;
  g = none;
  h = none;
  i = none;
  l = none;
}

invited-Inv : Inv invited
invited-Inv = ground arith

answer_sends_example :
    count_if is_response (ist_send_response none (answer_of 200) invited).base.log ≡ 1
answer_sends_example = answer_sends invited none (answer_of 200) invited-Inv

abbrev refused : Ist
refused = record {
  base = base_of completed invite false (some (answer_of 486));
  to_tag = 7;
  g = some 500;
  h = some 32000;
  i = none;
  l = none;
}

refused-Inv : Inv refused
refused-Inv = ground arith
