-- ===== src/Transaction/Ist/Invariant.antt =====
-- What holds of an INVITE server transaction between two events.
use belle_sip.Prelude.{
  ℕ, ◌≡◌, Bool, true, false, Option, none, some, leb, is_some, count_if, if◌then◌else◌, arith,
  Reach, here, next,
}
use belle_sip.Transaction.Base.{
  State, completed, confirmed, accepted, proceeding, terminated, Method, ack, cancel, Response,
  Channel, TimerConfig, reliable_of, is_fault, is_end_notice, is_terminated,
}
use belle_sip.Transaction.Ist.{
  Ist, ist_send_response, ist_on_request, ist_on_timer_G, ist_on_timer_H, ist_on_timer_I,
  ist_on_timer_L, ist_terminate, ist_new,
}

-- belle_sip_transaction_set_dialog, as far as the transaction sees it
abbrev pub set_dialog : Bool → Ist → Ist
set_dialog d t = record t { base = let b = t.base in record b { has_dialog = d } }

-- One event: a response of the user, a request that matches, a timer that was started, the end.
pub data Step : Ist → Ist → Type 0 where
  answer : (t : Ist) (found : Option Channel) (r : Response) → Step t (ist_send_response found r t)
  request : (t : Ist) (m : Method) (ok : Bool) → Step t (ist_on_request m ok t)
  attach : (t : Ist) (d : Bool) → Step t (set_dialog d t)
  fire_G : (t : Ist) → is_some t.g ≡ true → Step t (ist_on_timer_G t).0
  fire_H : (t : Ist) → is_some t.h ≡ true → Step t (ist_on_timer_H t).0
  fire_I : (t : Ist) → is_some t.i ≡ true → Step t (ist_on_timer_I t).0
  fire_L : (t : Ist) → is_some t.l ≡ true → Step t (ist_on_timer_L t).0
  quit : (t : Ist) → Step t (ist_terminate t)

abbrev pub IsBare : Ist → Type 0
IsBare t = (t.g ≡ none) × (t.h ≡ none) × (t.i ≡ none) × (t.l ≡ none)

abbrev pub is_own_state : State → Bool
is_own_state proceeding = true
is_own_state completed = true
is_own_state confirmed = true
is_own_state accepted = true
is_own_state terminated = true
is_own_state _ = false

abbrev pub is_failure : Option Response → Bool
is_failure none = false
is_failure (some r) = leb 300 r.code

pub record Inv (t : Ist) : Type 0 where
  pub channel : is_some t.base.channel ≡ true
  pub own_states : is_own_state t.base.state ≡ true
  pub answered : is_some t.base.last_response ≡ true
  pub g_unreliable : is_some t.g ≡ true → reliable_of t.base.channel ≡ false
  pub completed_h : t.base.state ≡ completed → is_some t.h ≡ true
  pub completed_last : t.base.state ≡ completed → is_failure t.base.last_response ≡ true
  pub confirmed_i : t.base.state ≡ confirmed → is_some t.i ≡ true
  pub confirmed_g : t.base.state ≡ confirmed → t.g ≡ none
  pub accepted_l : t.base.state ≡ accepted → is_some t.l ≡ true
  pub proceeding_bare : t.base.state ≡ proceeding → IsBare t
  pub ended : t.base.state ≡ terminated → IsBare t
  pub no_fault : count_if is_fault t.base.log ≡ 0
  pub one_end : count_if is_end_notice t.base.log ≡ (if is_terminated t.base.state then 1 else 0)

answer-Inv :
    (t : Ist) (found : Option Channel) (r : Response) → Inv t → Inv (ist_send_response found r t)
unfolding ist_send_response
answer-Inv t found r v = ground arith

request-Inv : (t : Ist) (m : Method) (ok : Bool) → Inv t → Inv (ist_on_request m ok t)
unfolding ist_on_request
request-Inv t ack ok v = ground arith
request-Inv t cancel ok v = ground arith
request-Inv t _ ok v = ground arith

pub Step-Inv : {t u : Ist} → Step t u → Inv t → Inv u
unfolding ist_on_timer_G ist_on_timer_H ist_on_timer_I ist_on_timer_L ist_terminate
Step-Inv (answer t found r) v = answer-Inv t found r v
Step-Inv (request t m ok) v = request-Inv t m ok v
Step-Inv (attach t d) v = ground arith
Step-Inv (fire_G t h) v = ground arith
Step-Inv (fire_H t h) v = ground arith
Step-Inv (fire_I t h) v = ground arith
Step-Inv (fire_L t h) v = ground arith
Step-Inv (quit t) v = ground arith

new-Inv : (config : TimerConfig) (tag : ℕ) (c : Channel) → Inv (ist_new config tag (some c))
unfolding ist_new
new-Inv config tag c = ground arith

-- After any history of a transaction that found a channel for its first response, the invariant
-- holds.
pub ist_invariant :
    (config : TimerConfig) (tag : ℕ) (c : Channel) {u : Ist}
    → Reach Step (ist_new config tag (some c)) u
    → Inv u
ist_invariant config tag c here = new-Inv config tag c
ist_invariant config tag c (next r s) = Step-Inv s (ist_invariant config tag c r)
