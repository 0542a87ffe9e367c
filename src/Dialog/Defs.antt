-- ===== src/Dialog/Defs.antt =====
-- belle_sip_dialog_t of src/belle_sip_internal.h, the messages as src/dialog.c reads them, and the
-- functions on one field. Tags, call ids, contacts, routes and users are only copied and compared,
-- so they are numbers. What is done to the surroundings is appended to a log, newest first.
use belle_sip.Prelude.{
  ℕ, ◌+◌, ◌*◌, u32, Bool, true, false, ◌==◌, Option, none, some, List, [], ◌∷◌, if◌then◌else◌,
}
use belle_sip.Transaction.Base.{State, Method, TimerConfig, state_is_transient}

-- belle_sip_dialog_state_t
pub data DialogState : Type 0 where
  null early confirmed terminated : DialogState

-- A header that may be absent is an option; a tag may be absent from a header that is there.
pub record Request : Type 0 where
  pub method : Method
  pub cseq : Option ℕ
  pub call_id : Option ℕ
  pub contact : Option ℕ
  pub from : Option (Option ℕ)
  -- the Via header, by whether its protocol is TLS
  pub via : Option Bool
  pub is_secure_uri : Bool
  pub record_routes : List ℕ
  pub routes : List ℕ
  pub privacy : Option ℕ

pub record Response : Type 0 where
  pub code : ℕ
  pub cseq : Option ℕ
  pub contact : Option ℕ
  pub to : Option (Option ℕ)
  pub record_routes : List ℕ

-- What a dialog sees of a transaction.
pub record Transaction : Type 0 where
  pub is_client : Bool
  pub state : State
  pub request : Request
  pub last_response : Option Response

pub data Effect : Type 0 where
  -- belle_sip_provider_send_response on last_200Ok, belle_sip_provider_send_request on an ACK
  send_200Ok : Effect
  send_ack_request : ℕ → Effect
  -- an internal BYE is made and sent, by its sequence number
  send_bye : ℕ → Effect
  -- _belle_sip_dialog_process_queue is deferred to the main loop
  process_later : Effect
  -- a queued transaction is sent, or terminated unsent
  send_queued terminate_queued : ℕ → Effect
  remove_dialog : Effect
  -- a null pointer is used
  fault : Effect

pub record Dialog : Type 0 where
  pub state : DialogState
  pub previous_state : DialogState
  pub is_server : Bool
  pub is_secure : Bool
  pub terminate_on_bye : Bool
  pub needs_ack : Bool
  pub call_id : Option ℕ
  pub local_tag : Option ℕ
  pub remote_tag : Option ℕ
  pub local_party : Option (Option ℕ)
  pub remote_party : Option (Option ℕ)
  pub remote_target : Option ℕ
  pub route_set : List ℕ
  pub local_cseq : ℕ
  pub remote_cseq : ℕ
  pub privacy : Option ℕ
  pub last_out_invite : Option Request
  -- the sequence number of the ACK
  pub last_out_ack : Option ℕ
  pub last_transaction : Option Transaction
  pub queued : List ℕ
  pub timer_200Ok : Option ℕ
  pub timer_200Ok_end : Option ℕ
  pub last_200Ok : Option Response
  pub config : TimerConfig
  pub log : List Effect

abbrev pub emit : Effect → Dialog → Dialog
emit e d = record d { log = e ∷ d.log }

unfoldable pub set_state : DialogState → Dialog → Dialog
set_state s d = record d { previous_state = d.state; state = s }

abbrev or_keep : Option ℕ → Option ℕ → Option ℕ
or_keep none new = new
or_keep (some old) new = some old

abbrev tag_of : Option (Option ℕ) → Option ℕ
tag_of none = none
tag_of (some t) = t

-- A null `to` is dereferenced.
unfoldable pub set_to_tag : Option (Option ℕ) → Dialog → Dialog
set_to_tag none d = emit fault d
set_to_tag (some t) d =
    if d.is_server
    then record d { local_tag = or_keep d.local_tag t }
    else record d { remote_tag = or_keep d.remote_tag t }

unfoldable pub init_200Ok_retrans : Response → Dialog → Dialog
init_200Ok_retrans r d = record d {
  timer_200Ok = some d.config.t1;
  timer_200Ok_end = some (d.config.t1 * 64);
  last_200Ok = some r;
}

unfoldable pub stop_200Ok_retrans : Dialog → Dialog
stop_200Ok_retrans d = record d { timer_200Ok = none; timer_200Ok_end = none; last_200Ok = none }

unfoldable pub process_queue : Dialog → Dialog
process_queue d = emit process_later d

-- The transactions of the queue are terminated in order and the queue is emptied.
abbrev pub terminate_all : List ℕ → List Effect → List Effect
terminate_all [] l = l
terminate_all (q ∷ qs) l = terminate_all qs (terminate_queued q ∷ l)

unfoldable pub delete : Dialog → Dialog
unfolding stop_200Ok_retrans set_state
delete d =
    let d1 = set_state terminated (stop_200Ok_retrans d) in
    record d1 { queued = []; log = remove_dialog ∷ terminate_all d1.queued d1.log }

abbrev transient_of : Option Transaction → Bool
transient_of none = false
transient_of (some t) = state_is_transient t.state

unfoldable pub request_pending : Dialog → Bool
request_pending d = transient_of d.last_transaction

abbrev pub is_invite : Method → Bool
is_invite Method.invite = true
is_invite _ = false

abbrev pub is_bye : Method → Bool
is_bye Method.bye = true
is_bye _ = false

abbrev pub is_ack : Method → Bool
is_ack Method.ack = true
is_ack _ = false

-- INVITE or SUBSCRIBE
abbrev pub makes_dialog : Method → Bool
makes_dialog Method.invite = true
makes_dialog Method.subscribe = true
makes_dialog _ = false

unfoldable pub update_local_cseq : Method → Dialog → Dialog
update_local_cseq m d =
    let n = if d.local_cseq == 0 then 110 else d.local_cseq in
    record d { local_cseq = if is_ack m then n else u32 (n + 1) }
