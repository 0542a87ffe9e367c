-- ===== src/Tests/Nist.antt =====
-- Non-INVITE server transactions at concrete inputs.
use belle_sip.Prelude.{Reach, here, next, true, false, none, some, arith}
use belle_sip.Transaction.Base.{trying, completed, bye, Response}
use belle_sip.Transaction.Nist.{Nist, nist_new, nist_send_response, nist_on_request}
use belle_sip.Transaction.Nist.Invariant.{Step, answer, request, Inv, nist_invariant}
use belle_sip.Tests.Data.{defaults, udp, answer_of, base_of}

abbrev fresh : Nist
fresh = nist_new defaults bye 7

abbrev answered : Nist
answered = nist_send_response (some udp) (answer_of 200) fresh

-- An answer, and the request again.
history : Reach Step fresh (nist_on_request bye true answered)
history = next (next here (answer fresh (some udp) (answer_of 200))) (request answered bye true)

nist_invariant_example : Inv (nist_on_request bye true answered)
nist_invariant_example = nist_invariant defaults bye 7 history

abbrev asked : Nist
asked = record { base = base_of trying bye false none; to_tag = 7; j = none }

asked-Inv : Inv asked
asked-Inv = ground arith

abbrev tagged : Response
tagged = record { code = 200; to_tag = some 7; filled = false }

abbrev done : Nist
done = record { base = base_of completed bye false (some tagged); to_tag = 7; j = some 32000 }

done-Inv : Inv done
done-Inv = ground arith
