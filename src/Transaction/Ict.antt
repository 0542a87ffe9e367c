-- ===== src/Transaction/Ict.antt =====
-- The INVITE client transaction, src/ict.c.
pub mod Invariant
pub mod Traces
use belle_sip.Prelude.{
  ◌≡◌, refl, ℕ, ◌*◌, ◌%◌, ◌^◌, ◌≡◌, ◌&&◌, Bool, true, false, Option, none, some, ltb, leb, u32,
  is_some, if◌then◌else◌,
}
use belle_sip.Transaction.Client.{
  alarm, client_notify_response, ChannelState, disconnected, error, on_channel_state_changed,
}
use belle_sip.Transaction.Base.{
  State, init, calling, completed, accepted, proceeding, terminated, Response, Timer, timer_A,
  timer_B, timer_D, timer_M, queue_request, queue_ack, notify_response, start_timer, fault, Base,
  Outcome, stop, continue, emit, set_state, queue, reliable_of, drop_timer, Vptr, terminate,
  transaction_notify_timeout,
}

-- belle_sip_ict_t. A timer holds the timeout of its source; `ack` holds the response whose
-- To header the ACK carries.
pub record Ict : Type 0 where
  pub base : Base
  pub a : Option ℕ
  pub b : Option ℕ
  pub d : Option ℕ
  pub m : Option ℕ
  pub ack : Option Response

unfoldable pub on_ict_terminate : Ict → Ict
unfolding drop_timer
on_ict_terminate t = record t {
  base =
      drop_timer timer_M t.m
        (drop_timer timer_D t.d (drop_timer timer_B t.b (drop_timer timer_A t.a t.base)));
  a = none;
  b = none;
  d = none;
  m = none;
  ack = none;
}

abbrev pub ict_vptr : Vptr Ict
ict_vptr = record {
  base = λ t. t.base;
  with_base = λ b t. record t { base = b };
  on_terminate = on_ict_terminate;
}

unfoldable pub ict_terminate : Ict → Ict
unfolding terminate on_ict_terminate
ict_terminate = terminate ict_vptr

abbrev on_base : (Base → Base) → Ict → Ict
on_base f t = record t { base = f t.base }

-- The request is made once; a later call returns the one that is there.
unfoldable pub make_ack : Ict → Response → Ict
make_ack t r = elim t.ack [ none ↦ record t { ack = some r } | some _ ↦ t ]

unfoldable pub ict_on_timer_D : Ict → Ict × Outcome
unfolding ict_terminate
ict_on_timer_D t = elim t.base.state [ completed ↦ (ict_terminate t, stop) | _ ↦ (t, stop) ]

unfoldable pub ict_on_timer_M : Ict → Ict × Outcome
unfolding ict_terminate
ict_on_timer_M t = elim t.base.state [ accepted ↦ (ict_terminate t, stop) | _ ↦ (t, stop) ]

abbrev queue_made_ack : Ict → Ict
unfolding queue
queue_made_ack t = elim t.ack [
  | none ↦ on_base (emit fault) t
  | some r ↦ on_base (queue (queue_ack r)) t
]

-- The case of the PROCEEDING state, into which CALLING falls through.
ict_proceed : Ict → Response → Ict
unfolding make_ack queue set_state
ict_proceed t r =
    if leb 300 r.code
    then (let t1 = queue_made_ack (make_ack (on_base (set_state completed) t) r) in
        let t2 = on_base (client_notify_response r) t1 in
        let ms = t.base.config.t1 * 64 in
        record t2 { d = some ms; base = emit (start_timer timer_D ms) t2.base })
    else if leb 200 r.code
    then (let ms = t.base.config.t1 * 64 in
        record t {
          m = some ms;
          base =
              client_notify_response r (set_state accepted (emit (start_timer timer_M ms) t.base));
        })
    else if leb 100 r.code
    then on_base (client_notify_response r) t
    else t

unfoldable pub ict_on_response : Ict → Response → Ict
unfolding ict_proceed set_state queue
ict_on_response t r = elim t.base.state [
  | calling ↦ ict_proceed (on_base (set_state proceeding) t) r
  | proceeding ↦ ict_proceed t r
  | accepted ↦ if leb 200 r.code && ltb r.code 300 then on_base (client_notify_response r) t else t
  | completed ↦ if leb 300 r.code && is_some t.ack then queue_made_ack t else t
  | _ ↦ t
]

abbrev double_A : Ict → Ict
double_A t = elim t.a [
  | none ↦ on_base (emit fault) t
  | some ms ↦ record t { a = some (u32 (2 * ms)) }
]

unfoldable pub ict_on_timer_A : Ict → Ict × Outcome
unfolding queue
ict_on_timer_A t = elim t.base.state [
  | calling ↦ (on_base (queue queue_request) (double_A t), continue)
  | _ ↦ (t, continue)
]

unfoldable pub ict_on_timer_B : Ict → Bool → Ict × Outcome
unfolding transaction_notify_timeout on_ict_terminate
ict_on_timer_B t silent = elim t.base.state [
  | calling ↦ (transaction_notify_timeout ict_vptr silent t, stop)
  | _ ↦ (t, stop)
]

unfoldable pub ict_send_request : Ict → Ict
unfolding queue set_state
ict_send_request t =
    let t1 = on_base (set_state calling) t in
    let t2 = if reliable_of t.base.channel then t1 else record t1 {
      a = some t.base.config.t1;
      base = emit (start_timer timer_A t.base.config.t1) t1.base;
    } in
    let ms = t.base.config.t1 * 64 in
    let t3 = record t2 { b = some ms; base = emit (start_timer timer_B ms) t2.base } in
    on_base (queue queue_request) t3

-- The transaction whose channel has failed, before it ends.
abbrev pub ict_alarmed : Ict → Ict
ict_alarmed t = record t { base = alarm t.base }

unfoldable pub ict_on_channel : ChannelState → Ict → Ict
unfolding on_channel_state_changed on_ict_terminate ict_send_request
ict_on_channel = on_channel_state_changed ict_vptr ict_send_request

pub ict_on_channel-failed :
    (t : Ict)
    → (ict_on_channel disconnected t ≡ ict_terminate (ict_alarmed t))
      × (ict_on_channel error t ≡ ict_terminate (ict_alarmed t))
unfolding ict_on_channel ict_terminate
ict_on_channel-failed t = (refl, refl)
