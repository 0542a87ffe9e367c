-- ===== src/Transaction/Nist.antt =====
-- The server transaction of any other request, src/nist.c.
pub mod Invariant
pub mod Traces
use belle_sip.Prelude.{
  ℕ, ◌*◌, Bool, true, false, Option, none, List, [], ltb, leb, if◌then◌else◌, some,
}
use belle_sip.Transaction.Base.{
  State, init, trying, completed, proceeding, Response, Method, timer_J, queue_response,
  start_timer, Base, Channel, TimerConfig, Outcome, stop, emit, set_state, queue, queue_last,
  reliable_of, drop_timer, Vptr, terminate,
}
use belle_sip.Transaction.Server.{ServerVptr, send_response, on_request}

-- belle_sip_nist_t. The timer holds the timeout of its source.
pub record Nist : Type 0 where
  pub base : Base
  pub to_tag : ℕ
  pub j : Option ℕ

unfoldable pub nist_on_terminate : Nist → Nist
unfolding drop_timer
nist_on_terminate t = record t { base = drop_timer timer_J t.j t.base; j = none }

abbrev pub nist_vptr : Vptr Nist
nist_vptr = record {
  base = λ t. t.base;
  with_base = λ b t. record t { base = b };
  on_terminate = nist_on_terminate;
}

unfoldable pub nist_terminate : Nist → Nist
unfolding terminate nist_on_terminate
nist_terminate = terminate nist_vptr

abbrev on_base : (Base → Base) → Nist → Nist
on_base f t = record t { base = f t.base }

unfoldable pub nist_on_timer_J : Nist → Nist × Outcome
unfolding nist_terminate
nist_on_timer_J t = (nist_terminate t, stop)

unfoldable pub nist_set_completed : Nist → Nist
unfolding set_state
nist_set_completed t =
    let ms = if reliable_of t.base.channel then 0 else t.base.config.t1 * 64 in
    record t { j = some ms; base = set_state completed (emit (start_timer timer_J ms) t.base) }

-- The case of the PROCEEDING state, into which a final response in TRYING falls through.
nist_proceed : Nist → Response → Nist × Bool
unfolding nist_set_completed queue
nist_proceed t r =
    (on_base (queue (queue_response r)) (if leb 200 r.code then nist_set_completed t else t), true)

-- The Boolean says that the result is 0.
unfoldable pub nist_send_new_response : Nist → Response → Nist × Bool
unfolding nist_proceed queue set_state
nist_send_new_response t r = elim t.base.state [
  | trying ↦
      if ltb r.code 200
      then (on_base (λ b. queue (queue_response r) (set_state proceeding b)) t, true)
      else nist_proceed t r
  | proceeding ↦ nist_proceed t r
  | completed ↦ (t, false)
  | _ ↦ (t, true)
]

unfoldable pub nist_on_request_retransmission : Nist → Nist
unfolding queue_last
nist_on_request_retransmission t = elim t.base.state [
  | proceeding ↦ on_base (queue_last t.base.last_response) t
  | completed ↦ on_base (queue_last t.base.last_response) t
  | _ ↦ t
]

abbrev pub nist_server : ServerVptr Nist
nist_server = record {
  base = λ t. t.base;
  with_base = λ b t. record t { base = b };
  to_tag = λ t. t.to_tag;
  send_new_response = nist_send_new_response;
  on_request_retransmission = nist_on_request_retransmission;
  process_ack = none;
}

unfoldable pub nist_send_response : Option Channel → Response → Nist → Nist
unfolding send_response nist_send_new_response
nist_send_response = send_response nist_server

unfoldable pub nist_on_request : Method → Bool → Nist → Nist
unfolding on_request nist_on_request_retransmission
nist_on_request = on_request nist_server

-- belle_sip_nist_new, with the To tag that was drawn.
unfoldable pub nist_new : TimerConfig → Method → ℕ → Nist
unfolding set_state
nist_new config m tag =
    let blank : Base = record {
      state = init;
      method = m;
      is_client = false;
      has_dialog = false;
      last_response = none;
      channel = none;
      timed_out = false;
      config = config;
      log = [];
    } in
    record { base = set_state trying blank; to_tag = tag; j = none }
