-- ===== src/Transaction/Ict/Invariant.antt =====
-- What holds of an INVITE client transaction between two events.
use belle_sip.Prelude.{◌≡◌, ◌≢◌, Bool, true, false, none, is_some, count_if, arith}
use belle_sip.Transaction.Base.{
  init, trying, calling, completed, confirmed, accepted, terminated, Response, reliable_of,
  is_register, is_fault,
}
use belle_sip.Transaction.Client.{alarm, ChannelState, ready, disconnected, error, other}
use belle_sip.Transaction.Ict.{
  ict_on_channel, ict_alarmed, ict_on_channel-failed, Ict, ict_send_request, ict_on_response,
  ict_on_timer_A, ict_on_timer_B, ict_on_timer_D, ict_on_timer_M, ict_terminate,
}

-- One event. The request is sent from INIT only (belle_sip_client_transaction_send_request_to and
-- on_channel_state_changed test it), and a callback runs only if its timer was started.
pub data Step : Ict → Ict → Type 0 where
  send : (t : Ict) → t.base.state ≡ init → Step t (ict_send_request t)
  receive : (t : Ict) (r : Response) → Step t (ict_on_response t r)
  fire_A : (t : Ict) → is_some t.a ≡ true → Step t (ict_on_timer_A t).0
  fire_B : (t : Ict) (silent : Bool) → is_some t.b ≡ true → Step t (ict_on_timer_B t silent).0
  fire_D : (t : Ict) → is_some t.d ≡ true → Step t (ict_on_timer_D t).0
  fire_M : (t : Ict) → is_some t.m ≡ true → Step t (ict_on_timer_M t).0
  quit : (t : Ict) → Step t (ict_terminate t)
  change : (t : Ict) (s : ChannelState) → Step t (ict_on_channel s t)

abbrev pub IsBare : Ict → Type 0
IsBare t = (t.a ≡ none) × (t.b ≡ none) × (t.d ≡ none) × (t.m ≡ none) × (t.ack ≡ none)

pub record Inv (t : Ict) : Type 0 where
  pub channel : is_some t.base.channel ≡ true
  pub not_register : is_register t.base.method ≡ false
  pub not_trying : t.base.state ≢ trying
  pub not_confirmed : t.base.state ≢ confirmed
  pub calling_b : t.base.state ≡ calling → is_some t.b ≡ true
  pub a_unreliable : is_some t.a ≡ true → reliable_of t.base.channel ≡ false
  pub completed_d : t.base.state ≡ completed → is_some t.d ≡ true
  pub completed_ack : t.base.state ≡ completed → is_some t.ack ≡ true
  pub accepted_m : t.base.state ≡ accepted → is_some t.m ≡ true
  pub fresh : t.base.state ≡ init → IsBare t
  pub ended : t.base.state ≡ terminated → IsBare t
  pub untimed : t.base.timed_out ≡ false
  pub no_fault : count_if is_fault t.base.log ≡ 0

receive-Inv : (t : Ict) (r : Response) → Inv t → Inv (ict_on_response t r)
unfolding ict_on_response
receive-Inv t r v = ground arith

quit-Inv : (t : Ict) → Inv t → Inv (ict_terminate t)
unfolding ict_terminate
quit-Inv t v = ground arith

pub alarmed-Inv : (t : Ict) → Inv t → Inv (ict_alarmed t)
unfolding alarm
alarmed-Inv t v = ground arith

pub Step-Inv : {t u : Ict} → Step t u → Inv t → Inv u
unfolding ict_send_request ict_on_timer_A ict_on_timer_B ict_on_timer_D ict_on_timer_M ict_terminate
    ict_on_channel
Step-Inv (send t h) v = ground arith
Step-Inv (receive t r) v = receive-Inv t r v
Step-Inv (fire_A t h) v = ground arith
Step-Inv (fire_B t silent h) v = ground arith
Step-Inv (fire_D t h) v = ground arith
Step-Inv (fire_M t h) v = ground arith
Step-Inv (quit t) v = quit-Inv t v
Step-Inv (change t ready) v = ground arith
Step-Inv (change t disconnected) v =
    rw ((ict_on_channel-failed t).0) (quit-Inv (ict_alarmed t) (alarmed-Inv t v))
Step-Inv (change t error) v =
    rw ((ict_on_channel-failed t).1) (quit-Inv (ict_alarmed t) (alarmed-Inv t v))
Step-Inv (change t other) v = ground arith
