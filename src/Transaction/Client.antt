-- ===== src/Transaction/Client.antt =====
-- The client half of src/transaction.c, as far as the transaction itself goes: a response that is
-- handed to the listener, and a channel that changes its state.
use belle_sip.Prelude.{true, false, Bool, some, if◌then◌else◌, ◌≡◌, ◌+◌, count_if, arith}
use belle_sip.Transaction.Base.{
  State, init, completed, confirmed, accepted, terminated, Response, notify_response,
  notify_timeout, notify_io_error, is_final_notice, is_end_notice, is_timeout_notice, Base, emit,
  Vptr, terminate,
}

-- belle_sip_channel_state_t; `other` is any state that a transaction ignores.
pub data ChannelState : Type 0 where
  ready disconnected error other : ChannelState

-- belle_sip_client_transaction_notify_response, less its dialog: the response becomes the last one
-- and goes to the listener.
abbrev pub client_notify_response : Response → Base → Base
client_notify_response r b = emit (notify_response r) (record b { last_response = some r })

abbrev pub is_initial : State → Bool
is_initial init = true
is_initial _ = false

-- COMPLETED, CONFIRMED, ACCEPTED or TERMINATED
abbrev pub has_final : State → Bool
has_final completed = true
has_final confirmed = true
has_final accepted = true
has_final terminated = true
has_final _ = false

abbrev pub notify_error : Base → Base
notify_error b = if has_final b.state then b else emit notify_io_error b

abbrev pub notify_late_timeout : Base → Base
notify_late_timeout b = if b.timed_out then emit notify_timeout b else b

-- What the listener is told in the cases DISCONNECTED and ERROR.
unfoldable pub alarm : Base → Base
alarm b = notify_late_timeout (notify_error b)

abbrev pub fail : {T : Type 0} → Vptr T → T → T
unfolding terminate alarm
fail v t = terminate v (v.with_base (alarm (v.base t)) t)

-- The alarm keeps the state and the method, and tells of a timeout if timer F has marked the
-- transaction.
pub alarm_lem :
    (b : Base)
    → ((alarm b).state ≡ b.state)
      × ((alarm b).method ≡ b.method)
      × (count_if is_final_notice (alarm b).log ≡ count_if is_final_notice b.log)
      × (count_if is_end_notice (alarm b).log ≡ count_if is_end_notice b.log)
      × (count_if is_timeout_notice (alarm b).log
          ≡ count_if is_timeout_notice b.log + (if b.timed_out then 1 else 0))
unfolding alarm
alarm_lem b = ground arith

-- `send_request` is the virtual function of the kind of transaction.
unfoldable pub on_channel_state_changed : {T : Type 0} → Vptr T → (T → T) → ChannelState → T → T
unfolding terminate alarm
on_channel_state_changed v send_request state t = elim state [
  | ready ↦ if is_initial (v.base t).state then send_request t else t
  | disconnected ↦ fail v t
  | error ↦ fail v t
  | other ↦ t
]
