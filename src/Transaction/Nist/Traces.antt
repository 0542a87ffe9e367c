-- ===== src/Transaction/Nist/Traces.antt =====
-- How a non-INVITE server transaction moves, answers and repeats itself.
use belle_sip.Prelude.{
  ◌+◌, ◌≡◌, ◌≢◌, refl, ◌⊎◌, ◌∷◌, Bool, true, false, none, some, leb, count_if, if◌then◌else◌, arith,
}
use belle_sip.Transaction.Base.{
  State, trying, completed, proceeding, terminated, Method, ack, cancel, Response, Channel,
  queue_response, is_response, is_terminated,
}
use belle_sip.Transaction.Server.{prepare_response, code-prepare_response, prepare_response_channel}
use belle_sip.Transaction.Nist.{
  Nist, nist_send_response, nist_on_request, nist_on_timer_J, nist_terminate,
}
use belle_sip.Transaction.Nist.Invariant.{Step, answer, request, attach, fire_J, quit, Inv}

-- The diagram of RFC 3261, 17.2.2.
abbrev pub is_edge : State → State → Bool
is_edge trying proceeding = true
is_edge trying completed = true
is_edge proceeding completed = true
is_edge _ terminated = true
is_edge _ _ = false

-- Every event keeps the state or follows an edge of the diagram.
pub nist_moves :
    {t u : Nist}
    → Step t u
    → (u.base.state ≡ t.base.state) ⊎ (is_edge t.base.state u.base.state ≡ true)
unfolding nist_send_response nist_on_request nist_on_timer_J nist_terminate
nist_moves (answer t found r) = ground arith
nist_moves (request t ack ok) = ground arith
nist_moves (request t cancel ok) = ground arith
nist_moves (request t _ ok) = ground arith
nist_moves (attach t d) = ground arith
nist_moves (fire_J t h) = ground arith
nist_moves (quit t) = ground arith

abbrev pub is_live : State → Bool
is_live trying = true
is_live proceeding = true
is_live _ = false

-- In a transaction that has not ended, with a channel to be found: before a final response each
-- response of the user goes to the channel once and becomes the last one, and a final one completes
-- the transaction; after it none is sent, and the state and the last response stay.
pub nist_answer_outcome :
    (t : Nist) (c : Channel) (r : Response)
    → Inv t
    → t.base.state ≢ terminated
    → let u = nist_send_response (some c) r t in
      let live = is_live t.base.state in
      (count_if is_response u.base.log ≡ count_if is_response t.base.log + (if live then 1 else 0))
      × (u.base.last_response
          ≡ (if live then some (prepare_response t.base t.to_tag r) else t.base.last_response))
      × (u.base.state
          ≡ (if live then (if leb 200 r.code then completed else proceeding) else t.base.state))
unfolding nist_send_response
nist_answer_outcome t c r v alive = ground (
  arith,
  code-prepare_response t.base t.to_tag r,
  prepare_response_channel t.base (some c) t.to_tag r,
)

-- What a retransmitted request, neither an ACK nor a CANCEL, does: the last response, if there is
-- one and the transaction has not ended, is sent again, and the state and the last response stay.
pub retransmission_repeats :
    (t : Nist) (m : Method) (ok : Bool)
    → Inv t
    → m ≢ ack
    → m ≢ cancel
    → let u = nist_on_request m ok t in
      (u.base.log ≡ (elim t.base.last_response [
        | none ↦ t.base.log
        | some r ↦ if is_terminated t.base.state then t.base.log else queue_response r ∷ t.base.log
      ]))
      × (u.base.state ≡ t.base.state)
      × (u.base.last_response ≡ t.base.last_response)
unfolding nist_on_request
retransmission_repeats t ack ok v p q = absurd (p refl)
retransmission_repeats t cancel ok v p q = absurd (q refl)
retransmission_repeats t _ ok v p q = ground arith
