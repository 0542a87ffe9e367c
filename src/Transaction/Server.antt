-- ===== src/Transaction/Server.antt =====
-- The server half of src/transaction.c: a response that the user sends, and a request that arrives
-- for an existing server transaction. The handlers of a kind of server transaction are its table.
use belle_sip.Prelude.{
  ℕ, ◌≡◌, refl, arith, ◌&&◌, Bool, true, false, Option, none, some, ltb, ◌==◌, if◌then◌else◌,
  is_some,
}
use belle_sip.Transaction.Base.{
  Method, ack, cancel, Response, dialog_update, notify_request, Base, Channel, emit,
}

pub record ServerVptr (T : Type 0) : Type 0 where
  pub base : T → Base
  pub with_base : Base → T → T
  -- the To tag that belle_sip_server_transaction_init drew
  pub to_tag : T → ℕ
  -- the Boolean says that the result is 0
  pub send_new_response : T → Response → T × Bool
  pub on_request_retransmission : T → T
  -- belle_sip_ist_process_ack, on an INVITE server transaction only
  pub process_ack : Option (T → T × Bool)

-- The To tag and the headers of a dialog, for any status but 100.
unfoldable pub prepare_response : Base → ℕ → Response → Response
prepare_response b tag r =
    if r.code == 100
    then r
    else (let r1 = if is_some r.to_tag then r else record r { to_tag = some tag } in
        if b.has_dialog && ltb 100 r.code && ltb r.code 300
        then record r1 { filled = true }
        else r1)

-- The status is never changed,
pub code-prepare_response :
    (b : Base) (tag : ℕ) (r : Response) → (prepare_response b tag r).code ≡ r.code
unfolding prepare_response
code-prepare_response b tag r = ground arith

-- and the channel is not looked at.
pub prepare_response_channel :
    (b : Base) (found : Option Channel) (tag : ℕ) (r : Response)
    → prepare_response (record b { channel = found }) tag r ≡ prepare_response b tag r
unfolding prepare_response
prepare_response_channel b found tag r = refl

keep_response : Bool → Response → Base → Base
keep_response true r b = record b { last_response = some r }
keep_response false r b = b

update_dialog : Base → Base
update_dialog b = if b.has_dialog then emit (dialog_update true) b else b

abbrev send_on : {T : Type 0} → ServerVptr T → Response → T → T
unfolding keep_response update_dialog
send_on v r t =
    let r' = prepare_response (v.base t) (v.to_tag t) r in
    let (u, sent) = v.send_new_response t r' in
    v.with_base (update_dialog (keep_response sent r' (v.base u))) u

-- `found` is the channel that belle_sip_provider_get_channel gives for the response's return hop;
-- it is looked up for the first response only.
unfoldable pub send_response : {T : Type 0} → ServerVptr T → Option Channel → Response → T → T
unfolding keep_response update_dialog
send_response v found r t = elim (v.base t).last_response [
  | some _ ↦ send_on v r t
  | none ↦
      let t1 = v.with_base (let b = v.base t in record b { channel = found }) t in
      elim found [ none ↦ t1 | some _ ↦ send_on v r t1 ]
]

abbrev notify_if : {T : Type 0} → ServerVptr T → Bool → T → T
notify_if v true t = v.with_base (emit notify_request (v.base t)) t
notify_if v false t = t

abbrev acknowledge : {T : Type 0} → ServerVptr T → Bool → T → T
acknowledge v accepted t = elim v.process_ack [
  | none ↦ t
  | some f ↦
      let (u, reported) = f t in notify_if v (reported && (v.base u).has_dialog && accepted) u
]

-- `accepted` is what belle_sip_dialog_handle_ack answers for the transaction's dialog.
unfoldable pub on_request : {T : Type 0} → ServerVptr T → Method → Bool → T → T
on_request v m accepted t = elim m [
  | ack ↦ acknowledge v accepted t
  | cancel ↦ notify_if v true t
  | _ ↦ v.on_request_retransmission t
]
