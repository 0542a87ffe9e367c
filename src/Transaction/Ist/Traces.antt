-- ===== src/Transaction/Ist/Traces.antt =====
-- How an INVITE server transaction moves, answers, retransmits and ends.
use belle_sip.Prelude.{
  ℕ, zero, suc, ◌+◌, ◌*◌, ◌^◌, min, ◌≡◌, ◌⊎◌, ◌∷◌, ◌&&◌, ap, ◌∙◌, pow_two, Bool, true, false,
  Option, none, some, is_some, count_if, if◌then◌else◌, arith,
}
use belle_sip.Transaction.Base.{
  State, completed, confirmed, accepted, proceeding, terminated, ack, cancel, Response, Channel,
  Effect, notify_request, reliable_of, is_response, queue_response, repeat,
}
use belle_sip.Transaction.Ist.{
  Ist, ist_send_response, ist_on_request, ist_on_timer_G, ist_terminate,
}
use belle_sip.Transaction.Ist.Invariant.{
  Step, answer, request, attach, fire_G, fire_H, fire_I, fire_L, quit, Inv, IsBare,
}

-- The diagram of RFC 3261, 17.2.1, as amended by RFC 6026.
abbrev pub is_edge : State → State → Bool
is_edge proceeding accepted = true
is_edge proceeding completed = true
is_edge completed confirmed = true
is_edge _ terminated = true
is_edge _ _ = false

abbrev pub is_request_notice : Effect → Bool
is_request_notice notify_request = true
is_request_notice _ = false

abbrev Follows : State → State → Type 0
Follows s u = (u ≡ s) ⊎ (is_edge s u ≡ true)

-- Of the responses that the user gives, those given in PROCEEDING go to the channel, once each,
-- and no other does.
pub answer_sends :
    (t : Ist) (found : Option Channel) (r : Response)
    → Inv t
    → count_if is_response (ist_send_response found r t).base.log
      ≡ count_if is_response t.base.log + (elim t.base.state [ proceeding ↦ 1 | _ ↦ 0 ])
unfolding ist_send_response
answer_sends t found r v = ground arith

-- What an ACK does. In COMPLETED it stops the retransmissions and confirms the transaction, or
-- ends it at once over a reliable channel; in any other state the state and timer G stay. No
-- response is sent, and the listener is told only in ACCEPTED, of a dialog that takes the ACK.
pub ack_outcome :
    (t : Ist) (ok : Bool)
    → Inv t
    → let u = ist_on_request ack ok t in
      let ended : State = if reliable_of t.base.channel then terminated else confirmed in
      let told : ℕ = if t.base.has_dialog && ok then 1 else 0 in
      (u.base.state ≡ (elim t.base.state [ completed ↦ ended | _ ↦ t.base.state ]))
      × (u.g ≡ (elim t.base.state [ completed ↦ none | _ ↦ t.g ]))
      × (count_if is_response u.base.log ≡ count_if is_response t.base.log)
      × (count_if is_request_notice u.base.log
          ≡ count_if is_request_notice t.base.log + (elim t.base.state [ accepted ↦ told | _ ↦ 0 ]))
unfolding ist_on_request
ack_outcome t ok v = ground arith

-- A terminated transaction stays so, has no timer, and puts no response on the channel.
pub terminated_silent :
    {t u : Ist}
    → Step t u
    → Inv t
    → t.base.state ≡ terminated
    → (u.base.state ≡ terminated)
      × IsBare u
      × (count_if is_response u.base.log ≡ count_if is_response t.base.log)
unfolding ist_send_response ist_on_request ist_terminate
terminated_silent (answer t found r) v e = ground arith
terminated_silent (request t ack ok) v e = ground arith
terminated_silent (request t cancel ok) v e = ground arith
terminated_silent (request t _ ok) v e = ground arith
terminated_silent (attach t d) v e = ground arith
terminated_silent (fire_G t h) v e = ground arith
terminated_silent (fire_H t h) v e = ground arith
terminated_silent (fire_I t h) v e = ground arith
terminated_silent (fire_L t h) v e = ground arith
terminated_silent (quit t) v e = ground arith

-- `n` firings of timer G.
abbrev pub fire_G_times : ℕ → Ist → Ist
fire_G_times zero t = t
fire_G_times (suc n) t = fire_G_times n (ist_on_timer_G t).0

fire_G-completed :
    (t : Ist) (ms : ℕ) (r : Response)
    → t.base.state ≡ completed
    → is_some t.base.channel ≡ true
    → t.base.last_response ≡ some r
    → t.g ≡ some ms
    → let u = (ist_on_timer_G t).0 in
      (u.base.state ≡ completed)
      × (is_some u.base.channel ≡ true)
      × (u.base.last_response ≡ some r)
      × (u.g ≡ some (min (2 * ms) t.base.config.t2))
      × (u.base.config ≡ t.base.config)
      × (u.base.log ≡ queue_response r ∷ t.base.log)
unfolding ist_on_timer_G
fire_G-completed t ms r h c l e = ground arith

-- Until the ACK comes, n firings of timer G send the same response n times, and its value is 2 ^ n
-- times the first, but at most T2.
pub timer_G_backoff :
    (n : ℕ) (t : Ist) (ms t2 : ℕ) (r : Response)
    → t.base.state ≡ completed
    → is_some t.base.channel ≡ true
    → t.base.last_response ≡ some r
    → t.g ≡ some (min ms t2)
    → t.base.config.t2 ≡ t2
    → let u = fire_G_times n t in
      (u.base.state ≡ completed)
      × (u.g ≡ some (min (2 ^ n * ms) t2))
      × (u.base.log ≡ repeat n (queue_response r) t.base.log)
timer_G_backoff zero t ms t2 r h c l e g = ground arith
timer_G_backoff (suc n) t ms t2 r h c l e g =
    let (h', c', l', e', g', m) = fire_G-completed t (min ms t2) r h c l e in
    let d : (ist_on_timer_G t).0.g ≡ some (min (2 * ms) t2) = ground arith in
    let (s, a, k) =
      timer_G_backoff n (ist_on_timer_G t).0 (2 * ms) t2 r h' c' l' d (ap (λ c. c.t2) g' ∙ g) in
    (s, a ∙ ap (λ x. some (min x t2)) (pow_two n ms), k ∙ ap (repeat n (queue_response r)) m)
