-- ===== src/Dialog/Update.antt =====
-- belle_sip_dialog_new, belle_sip_dialog_establish and belle_sip_dialog_update.
use belle_sip.Prelude.{
  ℕ, Bool, true, false, ◌==◌, ◌&&◌, ◌||◌, not, Option, none, some, [], ltb, leb, is_some,
  if◌then◌else◌,
}
use mathlib.Core.List.{reverse}
use belle_sip.Transaction.Base.{State, TimerConfig, is_terminated}
use belle_sip.Dialog.Defs.{
  DialogState, null, early, confirmed, terminated, Request, Response, Transaction, Dialog,
  send_ack_request, fault, emit, set_state, set_to_tag, init_200Ok_retrans, process_queue, delete,
  is_invite, is_bye, makes_dialog,
}

abbrev secure_by : Option Bool → Bool → Bool → Bool
secure_by (some tls) uri old = (tls && uri) || old
secure_by none uri old = old

-- The Boolean says that the result is 0. The Via, the To and the CSeq are checked before anything
-- is changed.
unfoldable pub init_as_uas : Request → Response → Dialog → Dialog × Bool
init_as_uas req resp d = elim req.contact [
  | none ↦ (d, false)
  | some ct ↦ elim resp.to [
    | none ↦ (d, false)
    | some to ↦ elim req.cseq [
      | none ↦ (d, false)
      | some seq ↦
          if is_some req.via
          then (
            record d {
              is_secure = secure_by req.via req.is_secure_uri d.is_secure;
              route_set = req.record_routes;
              remote_target = some ct;
              remote_cseq = seq;
              local_party = some to;
            },
            true,
          )
          else (d, false)
    ]
  ]
]

abbrev or_old : Option ℕ → Option ℕ → Option ℕ
or_old none old = old
or_old (some ct) old = some ct

unfoldable pub init_as_uac : Request → Response → Dialog → Dialog × Bool
init_as_uac req resp d = elim resp.to [
  | none ↦ (d, false)
  | some to ↦ elim req.cseq [
    | none ↦ (d, false)
    | some seq ↦
        if is_some req.via
        then (
          record d {
            is_secure = secure_by req.via req.is_secure_uri d.is_secure;
            route_set = reverse resp.record_routes;
            remote_target = or_old resp.contact d.remote_target;
            local_cseq = seq;
            remote_party = some to;
            last_out_invite = if is_invite req.method then some req else d.last_out_invite;
          },
          true,
        )
        else (d, false)
  ]
]

abbrev confirm : Response → Dialog → Dialog × Bool
unfolding set_to_tag set_state
confirm resp d = (set_state confirmed (set_to_tag resp.to d), true)

unfoldable pub establish_full : Request → Response → Dialog → Dialog × Bool
unfolding init_200Ok_retrans set_to_tag set_state
establish_full req resp d =
    let d1 = if is_invite req.method then record d { needs_ack = true } else d in
    if d.is_server
    then confirm resp (if is_invite req.method then init_200Ok_retrans resp d1 else d1)
    else elim resp.contact [
      | none ↦ if is_some d.remote_target then confirm resp d1 else (d1, false)
      | some ct ↦ confirm resp (record d1 { remote_target = some ct })
    ]

abbrev is_null : DialogState → Bool
is_null null = true
is_null _ = false

abbrev tag_if : Option (Option ℕ) → Dialog × Bool → Dialog × Bool
unfolding set_to_tag
tag_if to (d, true) = (set_to_tag to d, true)
tag_if to (d, false) = (d, false)

unfoldable pub establish : Request → Response → Dialog → Dialog × Bool
unfolding init_as_uas init_as_uac set_to_tag
establish req resp d =
    if is_null d.state
    then elim req.call_id [
      | none ↦ (d, false)
      | some id ↦
          let d1 = record d { call_id = some id } in
          tag_if resp.to (if d.is_server then init_as_uas req resp d1 else init_as_uac req resp d1)
    ]
    else (d, false)

-- The Boolean says that the result is 0: the last ACK is sent again.
unfoldable pub handle_200Ok : Response → Dialog → Dialog × Bool
handle_200Ok resp d = elim d.last_out_ack [
  | none ↦ (d, false)
  | some seq ↦ elim resp.cseq [
    | none ↦ (d, false)
    | some n ↦ if n == seq then (emit (send_ack_request seq) d, true) else (d, false)
  ]
]

-- The end of belle_sip_dialog_update: the dialog is deleted, or its queue is looked at later.
abbrev finish : Bool → Dialog → Dialog × Bool
unfolding delete process_queue
finish delete_dialog d = (if delete_dialog then delete d else process_queue d, false)

abbrev pub code_of : Option Response → ℕ
code_of none = 0
code_of (some r) = r.code

abbrev with_response : (Response → Dialog → Dialog) → Option Response → Dialog → Dialog
with_response f none d = emit fault d
with_response f (some r) d = f r d

unfoldable pub update_early : Request → Option Response → Dialog → Dialog × Bool
unfolding delete process_queue
update_early req resp d =
    if leb 300 (code_of resp) && makes_dialog req.method
    then finish true d
    else if leb 200 (code_of resp) && ltb (code_of resp) 300 && makes_dialog req.method
    then finish false (with_response (λ r d. (establish_full req r d).0) resp d)
    else finish false d

-- The result of belle_sip_dialog_establish is not looked at. An INVITE has a Contact, since
-- belle_sip_message_check_headers refuses others; a SUBSCRIBE need not have one.
unfoldable pub update_null : Request → Option Response → Dialog → Dialog × Bool
unfolding set_state delete process_queue
update_null req resp d =
    let code = code_of resp in
    if ltb 100 code && ltb code 300 && makes_dialog req.method
    then (let d1 = with_response (λ r d. (establish req r d).0) resp d in
        if ltb code 200 then finish false (set_state early d1) else update_early req resp d1)
    else update_early req resp d

-- The old target is released, so it is dereferenced.
abbrev refresh_target : Option ℕ → Dialog → Dialog
refresh_target none d = d
refresh_target (some ct) d = record (if is_some d.remote_target then d else emit fault d) {
  remote_target = some ct;
}

abbrev contact_of : Option Response → Option ℕ
contact_of none = none
contact_of (some r) = r.contact

abbrev handled_200Ok : Option Response → Dialog → Dialog × Bool
handled_200Ok none d = (emit fault d, false)
handled_200Ok (some r) d = handle_200Ok r d

unfoldable pub reinvited : Bool → Request → Option Response → Dialog → Dialog × Bool
unfolding delete process_queue
reinvited as_uas req resp d =
    if as_uas
    then finish false (record (refresh_target req.contact d) { needs_ack = true })
    else (let d1 = refresh_target (contact_of resp) (record d { last_out_invite = some req }) in
        let (d2, again) = handled_200Ok resp d1 in
        if again then (d2, true) else finish false (record d2 { needs_ack = true }))

unfoldable pub update_confirmed : State → Bool → Request → Option Response → Dialog → Dialog × Bool
unfolding delete process_queue
update_confirmed trn as_uas req resp d =
    let code = code_of resp in
    if is_invite req.method
    then (if leb 200 code && ltb code 300
        then reinvited as_uas req resp d
        else if leb 300 code
        then finish false (record d { needs_ack = false })
        else finish false d)
    else if is_bye req.method && (leb 200 code || (code == 0 && is_terminated trn))
    then finish d.terminate_on_bye (record d { needs_ack = false })
    else finish false d

abbrev set_remote_cseq : Option ℕ → Dialog → Dialog
set_remote_cseq none d = emit fault d
set_remote_cseq (some n) d = record d { remote_cseq = n }

abbrev pub note_transaction : Transaction → Bool → Dialog → Dialog
note_transaction t as_uas d =
    let d1 = record d { last_transaction = some t } in
    if as_uas then set_remote_cseq t.request.cseq d1 else record d1 { privacy = t.request.privacy }

-- The Boolean is the result: the response is a retransmission and is kept from the listener.
unfoldable pub update : Transaction → Bool → Dialog → Dialog × Bool
unfolding delete process_queue
update t as_uas d =
    let d1 = note_transaction t as_uas d in
    elim d.state [
      | null ↦ update_null t.request t.last_response d1
      | early ↦ update_early t.request t.last_response d1
      | confirmed ↦ update_confirmed t.state as_uas t.request t.last_response d1
      | terminated ↦ finish false d1
    ]

-- belle_sip_dialog_new: `none` where the From header or its tag, or the To header of a response
-- that is there, is missing.
abbrev to_of : Option Response → Option (Option ℕ)
to_of none = some none
to_of (some r) = r.to

new_dialog : TimerConfig → Transaction → ℕ → Option ℕ → Dialog
new_dialog config t from_tag to_tag = record {
  state = null;
  previous_state = null;
  is_server = not t.is_client;
  is_secure = false;
  terminate_on_bye = true;
  needs_ack = false;
  call_id = none;
  local_tag = if t.is_client then some from_tag else to_tag;
  remote_tag = if t.is_client then to_tag else some from_tag;
  local_party = if t.is_client then some (some from_tag) else none;
  remote_party = if t.is_client then none else some (some from_tag);
  remote_target = none;
  route_set = if t.is_client then t.request.routes else [];
  local_cseq = 0;
  remote_cseq = 0;
  privacy = none;
  last_out_invite = none;
  last_out_ack = none;
  last_transaction = none;
  queued = [];
  timer_200Ok = none;
  timer_200Ok_end = none;
  last_200Ok = none;
  config = config;
  log = [];
}

unfoldable pub new : TimerConfig → Transaction → Option Dialog
unfolding new_dialog
new config t = elim t.request.from [
  | none ↦ none
  | some tag ↦ elim tag [
    | none ↦ none
    | some from_tag ↦ elim (to_of t.last_response) [
      | none ↦ none
      | some to_tag ↦ some (new_dialog config t from_tag to_tag)
    ]
  ]
]

-- An INVITE, as the transaction that sent it and the one that received it hold it.
abbrev pub caller : State → Request → Response → Transaction
caller s req r = record { is_client = true; state = s; request = req; last_response = some r }

abbrev pub callee : State → Request → Option Response → Transaction
callee s req r = record { is_client = false; state = s; request = req; last_response = r }
