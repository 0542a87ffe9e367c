-- ===== src/Tests/Dialog.antt =====
-- Dialogs at concrete inputs: a call from user 1 (tag 11) to user 2 (tag 22), call id 5.
use belle_sip.Prelude.{
  ℕ, if◌then◌else◌, ◌≡◌, refl, Bool, true, false, Option, none, some, [], ◌∷◌, arith,
}
use belle_sip.Transaction.Base.{State, invite, bye, subscribe, notify, state_is_transient}
use belle_sip.Dialog.Defs.{DialogState, confirmed, Request, Response, Dialog}
use belle_sip.Dialog.Update.{update, new, caller, callee}
use belle_sip.Dialog.Requests.{NewRequest, create_request, crashed}
use belle_sip.Dialog.Peers.{IsCall, peers_agree, missing_contact}
use belle_sip.Dialog.Queue.{join, process, remove, run, ever_queued, queue_order}
use belle_sip.Tests.Data.{defaults}

abbrev call_request : Option ℕ → Request
call_request contact = record {
  method = invite;
  cseq = some 20;
  call_id = some 5;
  contact = contact;
  from = some (some 11);
  via = some false;
  is_secure_uri = false;
  record_routes = 31 ∷ 32 ∷ [];
  routes = [];
  privacy = none;
}

abbrev ok : Response
ok = record {
  code = 200;
  cseq = some 20;
  contact = some 2;
  to = some (some 22);
  record_routes = 31 ∷ 32 ∷ [];
}

abbrev req : Request
req = call_request (some 1)

req-IsCall : IsCall req ok 11 22 5 20 1 2 false
req-IsCall = record {
  inviting = refl;
  from_tag = refl;
  to_tag = refl;
  call = refl;
  sequence = refl;
  via = refl;
  request_contact = refl;
  response_contact = refl;
  accepting = ground arith;
}

abbrev dialog : Bool → Dialog
dialog client = record {
  state = DialogState.null;
  previous_state = DialogState.null;
  is_server = if client then false else true;
  is_secure = false;
  terminate_on_bye = true;
  needs_ack = false;
  call_id = none;
  local_tag = if client then some 11 else none;
  remote_tag = if client then some 22 else some 11;
  local_party = if client then some (some 11) else none;
  remote_party = if client then none else some (some 11);
  remote_target = none;
  route_set = [];
  local_cseq = 0;
  remote_cseq = 0;
  privacy = none;
  last_out_invite = none;
  last_out_ack = none;
  last_transaction = none;
  queued = [];
  timer_200Ok = none;
  timer_200Ok_end = none;
  last_200Ok = none;
  config = defaults;
  log = [];
}

new-caller : new defaults (caller State.calling req ok) ≡ some (dialog true)
unfolding new
new-caller = refl

new-callee :
    (c : Option ℕ)
    → new defaults (callee State.proceeding (call_request c) none) ≡ some (dialog false)
unfolding new
new-callee c = refl

abbrev calling_end : Dialog
calling_end = (update (caller State.calling req ok) false (dialog true)).0

abbrev called_end : Dialog
called_end = (update (callee State.proceeding req (some ok)) true (dialog false)).0

peers_agree_example :
    (calling_end.state ≡ confirmed)
    × (called_end.state ≡ confirmed)
    × (calling_end.call_id ≡ called_end.call_id)
    × (calling_end.local_tag ≡ called_end.remote_tag)
    × (calling_end.remote_tag ≡ called_end.local_tag)
    × (calling_end.local_cseq ≡ called_end.remote_cseq)
    × (calling_end.remote_target ≡ some 2)
    × (called_end.remote_target ≡ some 1)
    × (calling_end.route_set ≡ 32 ∷ 31 ∷ [])
    × (called_end.route_set ≡ 31 ∷ 32 ∷ [])
    × (calling_end.needs_ack ≡ true)
    × (called_end.needs_ack ≡ true)
peers_agree_example =
    peers_agree defaults State.calling State.proceeding req ok 11 22 5 20 1 2 false (dialog true)
      (dialog false) req-IsCall new-caller (new-callee (some 1))

-- A SUBSCRIBE without a Contact, and what its 2xx response makes of the notifier's dialog.
abbrev subscription : Request
subscription = record (call_request none) { method = subscribe }

abbrev lost_end : Dialog
lost_end = (update (callee State.completed subscription (some ok)) true (dialog false)).0

new-subscription : new defaults (callee State.completed subscription none) ≡ some (dialog false)
unfolding new
new-subscription = refl

missing_contact_example :
    (lost_end.state ≡ confirmed)
    × (lost_end.remote_target ≡ none)
    × ((create_request notify lost_end).1 ≡ crashed)
unfolding state_is_transient
missing_contact_example =
    missing_contact defaults State.completed subscription ok 5 20 (dialog false) notify refl refl
      refl refl (ground arith) new-subscription refl

-- A confirmed dialog at the caller, whose INVITE has been acknowledged.
abbrev settled : Dialog
settled = record (dialog true) {
  state = confirmed;
  call_id = some 5;
  remote_target = some 2;
  route_set = 32 ∷ [];
  local_cseq = 20;
  last_out_invite = some req;
  last_out_ack = some 20;
}

-- A confirmed dialog at the callee that waits for the ACK of the INVITE with number 20.
abbrev pub waiting : Dialog
waiting = record (dialog false) {
  state = confirmed;
  needs_ack = true;
  remote_cseq = 20;
  timer_200Ok = some 500;
  timer_200Ok_end = some 32000;
  last_200Ok = some ok;
}

abbrev bye_request : NewRequest
bye_request = record {
  target = 2;
  method = bye;
  cseq = 21;
  routes = 32 ∷ [];
  privacy = none;
  dialog_queued = false;
  in_dialog = true;
}

queue_order_example :
    ever_queued (run (join 1 ∷ join 2 ∷ process ∷ join 3 ∷ remove ∷ []) settled) ≡ 1 ∷ 2 ∷ 3 ∷ []
queue_order_example = queue_order (join 1 ∷ join 2 ∷ process ∷ join 3 ∷ remove ∷ []) settled
