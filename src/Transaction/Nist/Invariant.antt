-- ===== src/Transaction/Nist/Invariant.antt =====
-- What holds of a non-INVITE server transaction between two events.
use belle_sip.Prelude.{
  ℕ, ◌≡◌, Bool, true, false, Option, none, some, leb, is_some, count_if, if◌then◌else◌, arith,
  Reach, here, next,
}
use belle_sip.Transaction.Base.{
  State, trying, completed, proceeding, terminated, Method, Response, Channel, TimerConfig,
  is_fault, is_end_notice, is_terminated,
}
use belle_sip.Transaction.Nist.{
  Nist, nist_send_response, nist_on_request, nist_on_timer_J, nist_terminate, nist_new,
}

-- belle_sip_transaction_set_dialog, as far as the transaction sees it
abbrev pub set_dialog : Bool → Nist → Nist
set_dialog d t = record t { base = let b = t.base in record b { has_dialog = d } }

-- One event: a response of the user, a request that matches, the timer if it was started, the end.
pub data Step : Nist → Nist → Type 0 where
  answer :
      (t : Nist) (found : Option Channel) (r : Response) → Step t (nist_send_response found r t)
  request : (t : Nist) (m : Method) (ok : Bool) → Step t (nist_on_request m ok t)
  attach : (t : Nist) (d : Bool) → Step t (set_dialog d t)
  fire_J : (t : Nist) → is_some t.j ≡ true → Step t (nist_on_timer_J t).0
  quit : (t : Nist) → Step t (nist_terminate t)

abbrev pub is_own_state : State → Bool
is_own_state trying = true
is_own_state proceeding = true
is_own_state completed = true
is_own_state terminated = true
is_own_state _ = false

abbrev pub is_final : Option Response → Bool
is_final none = false
is_final (some r) = leb 200 r.code

-- PROCEEDING or COMPLETED: a response has been sent
abbrev pub is_answered : State → Bool
is_answered proceeding = true
is_answered completed = true
is_answered _ = false

pub record Inv (t : Nist) : Type 0 where
  pub own_states : is_own_state t.base.state ≡ true
  pub last_channel : is_some t.base.last_response ≡ true → is_some t.base.channel ≡ true
  pub answered : is_answered t.base.state ≡ true → is_some t.base.last_response ≡ true
  pub trying_unanswered : t.base.state ≡ trying → t.base.last_response ≡ none
  pub completed_j : t.base.state ≡ completed → is_some t.j ≡ true
  pub completed_last : t.base.state ≡ completed → is_final t.base.last_response ≡ true
  pub j_completed : is_some t.j ≡ true → t.base.state ≡ completed
  pub no_fault : count_if is_fault t.base.log ≡ 0
  pub one_end : count_if is_end_notice t.base.log ≡ (if is_terminated t.base.state then 1 else 0)

answer-Inv :
    (t : Nist) (found : Option Channel) (r : Response) → Inv t → Inv (nist_send_response found r t)
unfolding nist_send_response
answer-Inv t found r v = ground arith

pub Step-Inv : {t u : Nist} → Step t u → Inv t → Inv u
unfolding nist_on_request nist_on_timer_J nist_terminate
Step-Inv (answer t found r) v = answer-Inv t found r v
Step-Inv (request t m ok) v = ground arith
Step-Inv (attach t d) v = ground arith
Step-Inv (fire_J t h) v = ground arith
Step-Inv (quit t) v = ground arith

new-Inv : (config : TimerConfig) (m : Method) (tag : ℕ) → Inv (nist_new config m tag)
unfolding nist_new
new-Inv config m tag = ground arith

-- After any history of a new transaction, the invariant holds.
pub nist_invariant :
    (config : TimerConfig) (m : Method) (tag : ℕ) {u : Nist}
    → Reach Step (nist_new config m tag) u
    → Inv u
nist_invariant config m tag here = new-Inv config m tag
nist_invariant config m tag (next r s) = Step-Inv s (nist_invariant config m tag r)
