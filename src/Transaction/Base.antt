-- ===== src/Transaction/Base.antt =====
-- What every transaction shares: belle_sip_transaction_t of src/belle_sip_internal.h and the
-- functions of src/transaction.c on it. What a handler does to its surroundings (the channel, the
-- listener, the main loop, the dialog, the provider) is appended to a log, the newest entry first.
use belle_sip.Prelude.{
  ℕ, zero, suc, Bool, true, false, not, Option, none, some, List, ◌∷◌, ltb, if◌then◌else◌,
}

-- belle_sip_transaction_state_t
pub data State : Type 0 where
  init trying calling completed confirmed accepted proceeding terminated : State

-- The methods that the code compares by strcmp; `other` is any other name.
pub data Method : Type 0 where
  invite ack cancel bye register subscribe notify prack update other : Method

pub record Response : Type 0 where
  pub code : ℕ
  pub to_tag : Option ℕ
  -- belle_sip_response_fill_for_dialog has run on it
  pub filled : Bool

pub data Timer : Type 0 where
  timer_A timer_B timer_D timer_M timer_E timer_F timer_K : Timer
  timer_G timer_H timer_I timer_L timer_J : Timer

pub data Effect : Type 0 where
  -- belle_sip_channel_queue_message, by what is queued; an ACK is known by the response whose To
  -- header it carries
  queue_request : Effect
  queue_ack queue_response : Response → Effect
  -- the listener's process_response_event, process_timeout, process_request_event,
  -- process_io_error and process_transaction_terminated
  notify_response : Response → Effect
  notify_timeout notify_request notify_io_error notify_terminated : Effect
  start_timer : Timer → ℕ → Effect
  stop_timer : Timer → Effect
  -- belle_sip_dialog_update on the transaction's dialog
  dialog_update : Bool → Effect
  -- a null pointer is used
  fault : Effect

-- belle_sip_timer_config_t, in milliseconds
pub record TimerConfig : Type 0 where
  pub t1 : ℕ
  pub t2 : ℕ
  pub t4 : ℕ

pub record Channel : Type 0 where
  pub is_reliable : Bool

pub record Base : Type 0 where
  pub state : State
  pub method : Method
  pub is_client : Bool
  pub has_dialog : Bool
  pub last_response : Option Response
  pub channel : Option Channel
  pub timed_out : Bool
  pub config : TimerConfig
  pub log : List Effect

-- What a timer's callback returns to the main loop.
pub data Outcome : Type 0 where
  stop continue : Outcome

abbrev pub emit : Effect → Base → Base
emit e b = record b { log = e ∷ b.log }

unfoldable pub set_state : State → Base → Base
set_state s b = record b { state = s }

unfoldable pub state_is_transient : State → Bool
state_is_transient init = true
state_is_transient trying = true
state_is_transient calling = true
state_is_transient proceeding = true
state_is_transient _ = false

abbrev pub is_terminated : State → Bool
is_terminated terminated = true
is_terminated _ = false

-- `!t->last_response || status_code<200`
abbrev pub no_final_response : Option Response → Bool
no_final_response none = true
no_final_response (some r) = ltb r.code 200

-- belle_sip_channel_queue_message(base->channel, …): the channel is dereferenced.
abbrev pub queue_on : Option Channel → Effect → Base → Base
queue_on none e b = emit fault b
queue_on (some c) e b = emit e b

unfoldable pub queue : Effect → Base → Base
queue e b = queue_on b.channel e b

-- The message may be a null pointer, as base->last_response is before the first response.
unfoldable pub queue_last : Option Response → Base → Base
unfolding queue
queue_last none b = emit fault b
queue_last (some r) b = queue (queue_response r) b

abbrev pub reliable_of : Option Channel → Bool
reliable_of none = false
reliable_of (some c) = c.is_reliable

-- belle_sip_transaction_stop_timer under `if (obj->timer_X)`; the caller resets the field.
unfoldable pub drop_timer : Timer → Option ℕ → Base → Base
drop_timer x none b = b
drop_timer x (some ms) b = emit (stop_timer x) b

-- The virtual table of a kind of transaction: where its base lies, and its `on_terminate`.
pub record Vptr (T : Type 0) : Type 0 where
  pub base : T → Base
  pub with_base : Base → T → T
  pub on_terminate : T → T

-- belle_sip_provider_set_transaction_terminated, less the provider's own list
unfoldable pub set_transaction_terminated : {T : Type 0} → Vptr T → T → T
set_transaction_terminated v t =
    let t' = v.on_terminate t in v.with_base (emit notify_terminated (v.base t')) t'

abbrev pub inform_dialog : Base → Base
inform_dialog b =
    if b.has_dialog
    then (if no_final_response b.last_response then emit (dialog_update (not b.is_client)) b else b)
    else b

unfoldable pub terminate : {T : Type 0} → Vptr T → T → T
unfolding set_transaction_terminated set_state
terminate v t =
    if is_terminated (v.base t).state
    then t
    else set_transaction_terminated v
        (v.on_terminate (v.with_base (inform_dialog (set_state terminated (v.base t))) t))

abbrev pub is_register : Method → Bool
is_register register = true
is_register _ = false

-- The Boolean is what belle_sip_channel_notify_timeout answers: the channel has been silent for a
-- minute and is moved to its error state.
unfoldable pub transaction_notify_timeout : {T : Type 0} → Vptr T → Bool → T → T
unfolding terminate
transaction_notify_timeout v silent t =
    if is_register (v.base t).method
    then (if silent then v.with_base (let b = v.base t in record b { timed_out = true }) t else t)
    else terminate v (v.with_base (emit notify_timeout (v.base t)) t)

abbrev pub is_fault : Effect → Bool
is_fault fault = true
is_fault _ = false

-- A response with a final status that the listener is given.
abbrev pub is_final_notice : Effect → Bool
is_final_notice (notify_response r) = not (ltb r.code 200)
is_final_notice _ = false

-- A final response other than 2xx that the listener is given.
abbrev pub is_failure_notice : Effect → Bool
is_failure_notice (notify_response r) = not (ltb r.code 300)
is_failure_notice _ = false

abbrev pub is_timeout_notice : Effect → Bool
is_timeout_notice notify_timeout = true
is_timeout_notice _ = false

abbrev pub is_end_notice : Effect → Bool
is_end_notice notify_terminated = true
is_end_notice _ = false

abbrev pub is_request : Effect → Bool
is_request queue_request = true
is_request _ = false

abbrev pub is_response : Effect → Bool
is_response (queue_response r) = true
is_response _ = false

-- `n` more entries `e` in the log.
abbrev pub repeat : ℕ → Effect → List Effect → List Effect
repeat zero e l = l
repeat (suc n) e l = repeat n e (e ∷ l)
