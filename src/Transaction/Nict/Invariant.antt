-- ===== src/Transaction/Nict/Invariant.antt =====
-- What holds of a non-INVITE client transaction between two events, and over its histories.
use belle_sip.Prelude.{
  ◌+◌, ◌≤◌, ◌≡◌, Bool, true, false, none, [], is_some, count_if, if◌then◌else◌, arith, Reach, here,
  next,
}
use belle_sip.Transaction.Base.{
  State, init, trying, calling, completed, confirmed, accepted, proceeding, terminated, Response,
  reliable_of, is_register, is_fault, is_final_notice, is_timeout_notice, is_end_notice,
  is_terminated,
}
use belle_sip.Transaction.Client.{alarm, alarm_lem, ChannelState, ready, disconnected, error, other}
use belle_sip.Transaction.Nict.{
  nict_on_channel, nict_alarmed, nict_on_channel-failed, Nict, nict_send_request, nict_on_response,
  nict_on_timer_E, nict_on_timer_F, nict_on_timer_K, nict_terminate,
}

-- One event; the request is sent from INIT only, and a callback runs only if its timer was started.
pub data Step : Nict → Nict → Type 0 where
  send : (t : Nict) → t.base.state ≡ init → Step t (nict_send_request t)
  receive : (t : Nict) (r : Response) → Step t (nict_on_response t r)
  fire_E : (t : Nict) → is_some t.e ≡ true → Step t (nict_on_timer_E t).0
  fire_F : (t : Nict) (silent : Bool) → is_some t.f ≡ true → Step t (nict_on_timer_F t silent).0
  fire_K : (t : Nict) → is_some t.k ≡ true → Step t (nict_on_timer_K t).0
  quit : (t : Nict) → Step t (nict_terminate t)
  change : (t : Nict) (s : ChannelState) → Step t (nict_on_channel s t)

abbrev pub IsBare : Nict → Type 0
IsBare t = (t.f ≡ none) × (t.e ≡ none) × (t.k ≡ none)

-- TRYING or PROCEEDING
abbrev pub is_open : State → Bool
is_open trying = true
is_open proceeding = true
is_open _ = false

abbrev pub is_invite_state : State → Bool
is_invite_state calling = true
is_invite_state confirmed = true
is_invite_state accepted = true
is_invite_state _ = false

pub record Inv (t : Nict) : Type 0 where
  pub channel : is_some t.base.channel ≡ true
  pub own_states : is_invite_state t.base.state ≡ false
  pub open_f : is_open t.base.state ≡ true → is_some t.f ≡ true
  pub open_k : is_open t.base.state ≡ true → t.k ≡ none
  pub e_unreliable : is_some t.e ≡ true → reliable_of t.base.channel ≡ false
  pub completed_k : t.base.state ≡ completed → is_some t.k ≡ true
  pub completed_unreliable : t.base.state ≡ completed → reliable_of t.base.channel ≡ false
  pub fresh : t.base.state ≡ init → IsBare t
  pub ended : t.base.state ≡ terminated → IsBare t
  -- timer F marks a REGISTER only
  pub only_register : is_register t.base.method ≡ false → t.base.timed_out ≡ false
  pub no_fault : count_if is_fault t.base.log ≡ 0

-- TRYING, PROCEEDING or not sent yet
abbrev pub is_pending : State → Bool
is_pending completed = false
is_pending terminated = false
is_pending _ = true

-- What the listener has been told so far, by the state.
pub record Notices (t : Nict) : Type 0 where
  pub unanswered : is_pending t.base.state ≡ true → count_if is_final_notice t.base.log ≡ 0
  pub one_final : count_if is_final_notice t.base.log ≤ 1
  pub one_outcome :
      is_register t.base.method ≡ false
      → count_if is_final_notice t.base.log + count_if is_timeout_notice t.base.log ≤ 1
  pub untimed :
      is_register t.base.method ≡ false
      → is_terminated t.base.state ≡ false
      → count_if is_timeout_notice t.base.log ≡ 0
  pub one_end : count_if is_end_notice t.base.log ≡ (if is_terminated t.base.state then 1 else 0)

pub Step-Inv : {t u : Nict} → Step t u → Inv t → Inv u
unfolding nict_send_request nict_on_response nict_on_timer_E nict_on_timer_F nict_on_timer_K
    nict_terminate nict_on_channel
Step-Inv (send t h) v = ground arith
Step-Inv (receive t r) v = ground arith
Step-Inv (fire_E t h) v = ground arith
Step-Inv (fire_F t silent h) v = ground arith
Step-Inv (fire_K t h) v = ground arith
Step-Inv (quit t) v = ground arith
Step-Inv (change t ready) v = ground arith
Step-Inv (change t disconnected) v = ground arith
Step-Inv (change t error) v = ground arith
Step-Inv (change t other) v = ground arith

alarmed-Inv : (t : Nict) → Inv t → Inv (nict_alarmed t)
unfolding alarm
alarmed-Inv t v = ground arith

alarmed-Notices : (t : Nict) → Inv t → Notices t → Notices (nict_alarmed t)
alarmed-Notices t v n = ground (arith, alarm_lem t.base)

quit-Notices : (t : Nict) → Inv t → Notices t → Notices (nict_terminate t)
unfolding nict_terminate
quit-Notices t v n = ground arith

Step-Notices : {t u : Nict} → Step t u → Inv t → Notices t → Notices u
unfolding nict_send_request nict_on_response nict_on_timer_E nict_on_timer_F nict_on_timer_K
    nict_terminate nict_on_channel
Step-Notices (send t h) v n = ground arith
Step-Notices (receive t r) v n = ground arith
Step-Notices (fire_E t h) v n = ground arith
Step-Notices (fire_F t silent h) v n = ground arith
Step-Notices (fire_K t h) v n = ground arith
Step-Notices (quit t) v n = quit-Notices t v n
Step-Notices (change t ready) v n = ground arith
Step-Notices (change t disconnected) v n =
    rw ((nict_on_channel-failed t).0)
      (quit-Notices (nict_alarmed t) (alarmed-Inv t v) (alarmed-Notices t v n))
Step-Notices (change t error) v n =
    rw ((nict_on_channel-failed t).1)
      (quit-Notices (nict_alarmed t) (alarmed-Inv t v) (alarmed-Notices t v n))
Step-Notices (change t other) v n = ground arith

-- A transaction as belle_sip_nict_new makes it, once its channel is there.
pub record IsNew (t : Nict) : Type 0 where
  pub initial : t.base.state ≡ init
  pub bare : IsBare t
  pub silent : t.base.log ≡ []
  pub unmarked : t.base.timed_out ≡ false
  pub connected : is_some t.base.channel ≡ true

new-Inv : (t : Nict) → IsNew t → Inv t
new-Inv t n = ground arith

new-Notices : (t : Nict) → IsNew t → Notices t
new-Notices t n = ground arith

-- After any history of a new transaction, its invariant holds.
pub nict_invariant : {t u : Nict} → IsNew t → Reach Step t u → Inv u
nict_invariant {t} n here = new-Inv t n
nict_invariant n (next r s) = Step-Inv s (nict_invariant n r)

-- After any history of a new transaction, the listener's notices are those of `Notices`.
pub nict-Notices : {t u : Nict} → IsNew t → Reach Step t u → Notices u
nict-Notices {t} n here = new-Notices t n
nict-Notices n (next r s) = Step-Notices s (nict_invariant n r) (nict-Notices n r)
