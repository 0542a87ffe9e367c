-- ===== src/Dialog/Requests.antt =====
-- The requests that a dialog makes, its ACKs, its queue of transactions and the matching of a
-- message: the rest of src/dialog.c.
use belle_sip.Prelude.{
  ℕ, ◌*◌, min, u32, Bool, true, false, ◌==◌, ◌&&◌, ◌||◌, not, Option, none, some, List, [], ◌∷◌,
  ◌++◌, ltb, is_some, if◌then◌else◌,
}
use belle_sip.Transaction.Base.{Method, Outcome, stop, continue}
use belle_sip.Dialog.Defs.{
  DialogState, null, early, confirmed, terminated, Response, Transaction, Dialog, send_200Ok,
  send_ack_request, send_bye, send_queued, fault, emit, stop_200Ok_retrans, process_queue,
  request_pending, is_invite, is_bye, makes_dialog, update_local_cseq,
}

-- The request that `create_request` makes, less the header objects: the target, the method, the
-- sequence number, the two parties, the routes and the privacy. `dialog_queued` and the dialog of
-- the request come last.
pub record NewRequest : Type 0 where
  pub target : ℕ
  pub method : Method
  pub cseq : ℕ
  pub routes : List ℕ
  pub privacy : Option ℕ
  pub dialog_queued : Bool
  pub in_dialog : Bool

-- `none` where the remote target, which is dereferenced, is null.
unfoldable pub make_request : Dialog → Method → Bool → Option NewRequest
make_request d m full = elim d.remote_target [
  | none ↦ none
  | some target ↦ some (record {
    target = target;
    method = m;
    cseq = d.local_cseq;
    routes = if full then d.route_set else [];
    privacy = d.privacy;
    dialog_queued = false;
    in_dialog = true;
  })
]

-- What a function that makes a request gives back: a null pointer, a request, or a crash.
pub data Made : Type 0 where
  refused crashed : Made
  made : NewRequest → Made

abbrev made_of : Option NewRequest → Made
made_of none = crashed
made_of (some r) = made r

abbrev pub can_request : DialogState → Bool
can_request confirmed = true
can_request early = true
can_request _ = false

abbrev pub is_early : DialogState → Bool
is_early early = true
is_early _ = false

abbrev pub is_update : Method → Bool
is_update Method.update = true
is_update _ = false

unfoldable pub create_request : Method → Dialog → Dialog × Made
unfolding make_request request_pending update_local_cseq
create_request m d =
    if not (can_request d.state)
    then (d, refused)
    else if (not (is_bye m) && request_pending d) && (not (is_early d.state) && not (is_update m))
    then (d, refused)
    else (let d1 = update_local_cseq m d in (d1, made_of (make_request d1 m true)))

abbrev queue_it : Made → Made
queue_it (made r) = made (record r { dialog_queued = true })
queue_it x = x

unfoldable pub create_queued_request : Method → Dialog → Made
unfolding make_request
create_queued_request m d =
    if makes_dialog m then refused else queue_it (made_of (make_request d m false))

-- Sent by a listener that has the INVITE's sequence number at hand.
unfoldable pub create_ack : ℕ → Dialog → Made
unfolding make_request
create_ack cseq d = elim d.last_out_invite [
  | none ↦ refused
  | some invite ↦ elim invite.cseq [
    | none ↦ crashed
    | some n ↦
        if n == cseq
        then elim (make_request d Method.ack true) [
          | none ↦ crashed
          | some r ↦ made (record r { in_dialog = false })
        ]
        else refused
  ]
]

-- belle_sip_dialog_update_request, on a request that waited: its routes grow, its target and its
-- sequence number become the dialog's.
unfoldable pub update_request : NewRequest → Dialog → Dialog × Made
unfolding update_local_cseq
update_request r d =
    let d1 = update_local_cseq r.method d in
    (
      d1,
      elim d1.remote_target [
        | none ↦ crashed
        | some target ↦
            made (record r {
              routes = r.routes ++ d1.route_set;
              target = target;
              cseq = d1.local_cseq;
            })
      ],
    )

-- The Boolean says that the result is 0.
unfoldable pub check_incoming_request_ordering : ℕ → Dialog → Dialog × Bool
check_incoming_request_ordering cseq d =
    if d.remote_cseq == 0
    then (record d { remote_cseq = cseq }, false)
    else (d, ltb d.remote_cseq cseq)

-- `ack` is the ACK's own sequence number.
unfoldable pub send_ack : ℕ → Dialog → Dialog
unfolding process_queue
send_ack ack d =
    if d.needs_ack
    then process_queue
        (emit (send_ack_request ack) (record d { needs_ack = false; last_out_ack = some ack }))
    else d

-- The Boolean says that the result is 0.
unfoldable pub handle_ack : ℕ → Dialog → Dialog × Bool
unfolding stop_200Ok_retrans process_queue
handle_ack cseq d =
    if d.needs_ack && cseq == d.remote_cseq
    then (process_queue (stop_200Ok_retrans (record d { needs_ack = false })), true)
    else (d, false)

-- The BYE is made, or the null request is handed on and dereferenced.
abbrev bye_of : Dialog × Made → Dialog
bye_of (d, made r) = emit (send_bye r.cseq) d
bye_of (d, refused) = emit fault d
bye_of (d, crashed) = emit fault d

unfoldable pub check_ack_sent : Dialog → Dialog
unfolding create_request
check_ack_sent d = if d.needs_ack then bye_of (create_request Method.bye d) else d

abbrev resend_200Ok : Option Response → Dialog → Dialog
resend_200Ok none d = emit fault d
resend_200Ok (some r) d = emit send_200Ok d

abbrev back_off_200Ok : Dialog → Dialog
back_off_200Ok d = elim d.timer_200Ok [
  | none ↦ emit fault d
  | some ms ↦ record d { timer_200Ok = some (min (u32 (2 * ms)) d.config.t2) }
]

unfoldable pub on_200Ok_timer : Dialog → Dialog × Outcome
on_200Ok_timer d = (resend_200Ok d.last_200Ok (back_off_200Ok d), continue)

unfoldable pub on_200Ok_end : Dialog → Dialog × Outcome
unfolding stop_200Ok_retrans create_request
on_200Ok_end d =
    (bye_of (create_request Method.bye (record (stop_200Ok_retrans d) { state = confirmed })), stop)

unfoldable pub queue_client_transaction : ℕ → Dialog → Dialog
queue_client_transaction q d = record d { queued = d.queued ++ q ∷ [] }

abbrev is_ended : DialogState → Bool
is_ended terminated = true
is_ended _ = false

send_first : List ℕ → Dialog → Dialog
send_first [] d = d
send_first (q ∷ qs) d = emit (send_queued q) (record d { queued = qs })

-- The deferred half of belle_sip_dialog_process_queue.
unfoldable pub process_queue_now : Dialog → Dialog
unfolding request_pending send_first
process_queue_now d =
    if is_ended d.state || request_pending d || d.needs_ack then d else send_first d.queued d

abbrev is_notify : Method → Bool
is_notify Method.notify = true
is_notify _ = false

abbrev is_subscribe : Method → Bool
is_subscribe Method.subscribe = true
is_subscribe _ = false

abbrev is_prack : Method → Bool
is_prack Method.prack = true
is_prack _ = false

abbrev authorized_beside : Option Transaction → Method → Bool
authorized_beside none m = true
authorized_beside (some t) m =
    (t.is_client && is_subscribe t.request.method && is_notify m)
    || (is_invite t.request.method && (is_prack m || is_update m))

unfoldable pub is_authorized_transaction : Method → Dialog → Bool
unfolding request_pending
is_authorized_transaction m d =
    if request_pending d then is_bye m || authorized_beside d.last_transaction m else true

abbrev same : Option ℕ → ℕ → Bool
same none x = false
same (some y) x = y == x

-- `none` where a null pointer is compared: in the null state, which is fatal, without a call id,
-- and where a tag that the comparison reaches is null.
abbrev same_string : Option ℕ → Option ℕ → Option Bool
same_string none y = none
same_string (some x) none = none
same_string (some x) (some y) = some (x == y)

abbrev and_then : Option Bool → Option Bool → Option Bool
and_then none y = none
and_then (some false) y = some false
and_then (some true) y = y

abbrev pub is_null : DialogState → Bool
is_null null = true
is_null _ = false

unfoldable pub match_ids : Option ℕ → Option ℕ → Option ℕ → Dialog → Option Bool
match_ids call_id local_tag remote_tag d =
    if is_null d.state
    then none
    else and_then (same_string d.call_id call_id) (
        and_then (same_string d.local_tag local_tag)
          (if is_some d.remote_tag then same_string d.remote_tag remote_tag else some false))

-- A message by its Call-ID, From and To headers.
pub record Ids : Type 0 where
  pub call_id : Option ℕ
  pub from : Option (Option ℕ)
  pub to : Option (Option ℕ)

unfoldable pub match : Ids → Bool → Dialog → Option Bool
unfolding match_ids
match msg as_uas d = elim msg.call_id [
  | none ↦ some false
  | some id ↦ elim msg.from [
    | none ↦ some false
    | some from_tag ↦ elim msg.to [
      | none ↦ some false
      | some to_tag ↦
          if as_uas
          then match_ids (some id) to_tag from_tag d
          else match_ids (some id) from_tag to_tag d
    ]
  ]
]
