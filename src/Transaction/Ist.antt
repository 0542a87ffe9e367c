-- ===== src/Transaction/Ist.antt =====
-- The INVITE server transaction, src/ist.c.
pub mod Invariant
pub mod Traces
use belle_sip.Prelude.{
  ℕ, ◌*◌, min, ◌&&◌, Bool, true, false, Option, none, some, List, [], ltb, leb, if◌then◌else◌,
}
use belle_sip.Transaction.Base.{
  State, init, completed, confirmed, accepted, proceeding, Response, Method, invite, timer_G,
  timer_H, timer_I, timer_L, queue_response, start_timer, fault, Base, Channel, TimerConfig,
  Outcome, stop, continue, emit, set_state, queue, queue_last, reliable_of, drop_timer, Vptr,
  terminate,
}
use belle_sip.Transaction.Server.{ServerVptr, send_response, on_request}

-- belle_sip_ist_t. A timer holds the timeout of its source.
pub record Ist : Type 0 where
  pub base : Base
  pub to_tag : ℕ
  pub g : Option ℕ
  pub h : Option ℕ
  pub i : Option ℕ
  pub l : Option ℕ

unfoldable pub ist_on_terminate : Ist → Ist
unfolding drop_timer
ist_on_terminate t = record t {
  base =
      drop_timer timer_L t.l
        (drop_timer timer_I t.i (drop_timer timer_H t.h (drop_timer timer_G t.g t.base)));
  g = none;
  h = none;
  i = none;
  l = none;
}

abbrev pub ist_vptr : Vptr Ist
ist_vptr = record {
  base = λ t. t.base;
  with_base = λ b t. record t { base = b };
  on_terminate = ist_on_terminate;
}

unfoldable pub ist_terminate : Ist → Ist
unfolding terminate ist_on_terminate
ist_terminate = terminate ist_vptr

abbrev on_base : (Base → Base) → Ist → Ist
on_base f t = record t { base = f t.base }

-- `timer_G` is dereferenced to read and set its timeout.
abbrev back_off_G : Ist → Ist
back_off_G t = elim t.g [
  | none ↦ on_base (emit fault) t
  | some ms ↦ record t { g = some (min (2 * ms) t.base.config.t2) }
]

unfoldable pub ist_on_timer_G : Ist → Ist × Outcome
unfolding queue_last
ist_on_timer_G t = elim t.base.state [
  | completed ↦ (back_off_G (on_base (queue_last t.base.last_response) t), continue)
  | _ ↦ (t, stop)
]

unfoldable pub ist_on_timer_H : Ist → Ist × Outcome
unfolding ist_terminate
ist_on_timer_H t = elim t.base.state [ completed ↦ (ist_terminate t, stop) | _ ↦ (t, stop) ]

unfoldable pub ist_on_timer_I : Ist → Ist × Outcome
unfolding ist_terminate
ist_on_timer_I t = (ist_terminate t, stop)

unfoldable pub ist_on_timer_L : Ist → Ist × Outcome
unfolding ist_terminate
ist_on_timer_L t = (ist_terminate t, stop)

-- The Boolean says that the result is 0: the ACK is reported to the user.
unfoldable pub ist_process_ack : Ist → Ist × Bool
unfolding set_state drop_timer ist_on_timer_I
ist_process_ack t = elim t.base.state [
  | completed ↦
      let t1 = record t { base = set_state confirmed (drop_timer timer_G t.g t.base); g = none } in
      let ms = t.base.config.t4 in
      (
        if reliable_of t.base.channel
            then (ist_on_timer_I t1).0
            else record t1 { i = some ms; base = emit (start_timer timer_I ms) t1.base },
        false,
      )
  | accepted ↦ (t, true)
  | _ ↦ (t, false)
]

-- The Boolean says that the result is 0.
unfoldable pub ist_send_new_response : Ist → Response → Ist × Bool
unfolding queue set_state
ist_send_new_response t r = elim t.base.state [
  | proceeding ↦
      let t1 = on_base (queue (queue_response r)) t in
      let ms = 64 * t.base.config.t1 in
      (
        if leb 200 r.code && ltb r.code 300
            then record t1 {
              l = some ms;
              base = emit (start_timer timer_L ms) (set_state accepted t1.base);
            }
            else if leb 300 r.code
            then (let t2 = on_base (set_state completed) t1 in
                let t3 = if reliable_of t.base.channel then t2 else record t2 {
                  g = some t.base.config.t1;
                  base = emit (start_timer timer_G t.base.config.t1) t2.base;
                } in
                record t3 { h = some ms; base = emit (start_timer timer_H ms) t3.base })
            else t1,
        true,
      )
  | accepted ↦ (t, leb 200 r.code && ltb r.code 300)
  | _ ↦ (t, false)
]

unfoldable pub ist_on_request_retransmission : Ist → Ist
unfolding queue_last
ist_on_request_retransmission t = elim t.base.state [
  | proceeding ↦ on_base (queue_last t.base.last_response) t
  | completed ↦ on_base (queue_last t.base.last_response) t
  | _ ↦ t
]

abbrev pub ist_server : ServerVptr Ist
ist_server = record {
  base = λ t. t.base;
  with_base = λ b t. record t { base = b };
  to_tag = λ t. t.to_tag;
  send_new_response = ist_send_new_response;
  on_request_retransmission = ist_on_request_retransmission;
  process_ack = some ist_process_ack;
}

unfoldable pub ist_send_response : Option Channel → Response → Ist → Ist
unfolding send_response ist_send_new_response
ist_send_response = send_response ist_server

unfoldable pub ist_on_request : Method → Bool → Ist → Ist
unfolding on_request ist_process_ack ist_on_request_retransmission
ist_on_request = on_request ist_server

-- belle_sip_ist_new, with the To tag that was drawn and the channel that is found for the 100.
unfoldable pub ist_new : TimerConfig → ℕ → Option Channel → Ist
unfolding ist_send_response set_state
ist_new config tag found =
    let blank : Base = record {
      state = init;
      method = invite;
      is_client = false;
      has_dialog = false;
      last_response = none;
      channel = none;
      timed_out = false;
      config = config;
      log = [];
    } in
    let t : Ist = record {
      base = set_state proceeding blank;
      to_tag = tag;
      g = none;
      h = none;
      i = none;
      l = none;
    } in
    ist_send_response found (record { code = 100; to_tag = none; filled = false }) t
