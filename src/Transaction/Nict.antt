-- ===== src/Transaction/Nict.antt =====
-- The client transaction of any other request, src/nict.c.
pub mod Invariant
pub mod Traces
use belle_sip.Prelude.{
  ◌≡◌, refl, ℕ, ◌*◌, min, Bool, true, false, Option, none, some, ltb, leb, u32, is_some,
  if◌then◌else◌,
}
use belle_sip.Transaction.Client.{
  alarm, client_notify_response, ChannelState, disconnected, error, on_channel_state_changed,
}
use belle_sip.Transaction.Base.{
  State, trying, completed, proceeding, Response, timer_E, timer_F, timer_K, queue_request,
  notify_response, start_timer, fault, Base, Outcome, stop, continue, emit, set_state, queue,
  reliable_of, drop_timer, Vptr, terminate, transaction_notify_timeout,
}

-- belle_sip_nict_t. A timer holds the timeout of its source.
pub record Nict : Type 0 where
  pub base : Base
  pub f : Option ℕ
  pub e : Option ℕ
  pub k : Option ℕ

unfoldable pub nict_on_terminate : Nict → Nict
unfolding drop_timer
nict_on_terminate t = record t {
  base = drop_timer timer_K t.k (drop_timer timer_E t.e (drop_timer timer_F t.f t.base));
  f = none;
  e = none;
  k = none;
}

abbrev pub nict_vptr : Vptr Nict
nict_vptr = record {
  base = λ t. t.base;
  with_base = λ b t. record t { base = b };
  on_terminate = nict_on_terminate;
}

unfoldable pub nict_terminate : Nict → Nict
unfolding terminate nict_on_terminate
nict_terminate = terminate nict_vptr

abbrev on_base : (Base → Base) → Nict → Nict
on_base f t = record t { base = f t.base }

unfoldable pub nict_on_timer_K : Nict → Nict × Outcome
unfolding nict_terminate
nict_on_timer_K t = (nict_terminate t, stop)

-- `belle_sip_fatal("Should never happen.")` aborts: it is logged as a fault.
abbrev check_no_K : Nict → Nict
check_no_K t = if is_some t.k then on_base (emit fault) t else t

unfoldable pub nict_set_completed : Nict → Response → Nict
unfolding set_state nict_terminate
nict_set_completed t r =
    let t1 = check_no_K (on_base (set_state completed) t) in
    let t2 = on_base (client_notify_response r) t1 in
    let ms = t.base.config.t4 in
    if reliable_of t.base.channel
    then nict_terminate t2
    else record t2 { k = some ms; base = emit (start_timer timer_K ms) t2.base }

unfoldable pub nict_on_response : Nict → Response → Nict
unfolding nict_set_completed set_state
nict_on_response t r = elim t.base.state [
  | trying ↦
      if ltb r.code 200
      then on_base (λ b. client_notify_response r (set_state proceeding b)) t
      else nict_set_completed t r
  | proceeding ↦ if leb 200 r.code then nict_set_completed t r else t
  | _ ↦ t
]

unfoldable pub nict_on_timer_F : Nict → Bool → Nict × Outcome
unfolding transaction_notify_timeout nict_on_terminate
nict_on_timer_F t silent = elim t.base.state [
  | trying ↦ (transaction_notify_timeout nict_vptr silent t, stop)
  | proceeding ↦ (transaction_notify_timeout nict_vptr silent t, stop)
  | _ ↦ (t, stop)
]

-- `timer_E` is dereferenced to set its timeout.
abbrev set_E : (ℕ → ℕ) → Nict → Nict
set_E f t = elim t.e [ none ↦ on_base (emit fault) t | some ms ↦ record t { e = some (f ms) } ]

unfoldable pub nict_on_timer_E : Nict → Nict × Outcome
unfolding queue
nict_on_timer_E t = elim t.base.state [
  | trying ↦ (
    on_base (queue queue_request) (set_E (λ ms. min (u32 (2 * ms)) t.base.config.t2) t),
    continue,
  )
  | proceeding ↦ (on_base (queue queue_request) (set_E (λ _. t.base.config.t2) t), continue)
  | _ ↦ (t, stop)
]

unfoldable pub nict_send_request : Nict → Nict
unfolding queue set_state
nict_send_request t =
    let ms = t.base.config.t1 * 64 in
    let t1 = record t {
      f = some ms;
      base = emit (start_timer timer_F ms) (set_state trying t.base);
    } in
    let t2 = if reliable_of t.base.channel then t1 else record t1 {
      e = some t.base.config.t1;
      base = emit (start_timer timer_E t.base.config.t1) t1.base;
    } in
    on_base (queue queue_request) t2

-- The transaction whose channel has failed, before it ends.
abbrev pub nict_alarmed : Nict → Nict
nict_alarmed t = record t { base = alarm t.base }

unfoldable pub nict_on_channel : ChannelState → Nict → Nict
unfolding on_channel_state_changed nict_on_terminate nict_send_request
nict_on_channel = on_channel_state_changed nict_vptr nict_send_request

pub nict_on_channel-failed :
    (t : Nict)
    → (nict_on_channel disconnected t ≡ nict_terminate (nict_alarmed t))
      × (nict_on_channel error t ≡ nict_terminate (nict_alarmed t))
unfolding nict_on_channel nict_terminate
nict_on_channel-failed t = (refl, refl)
