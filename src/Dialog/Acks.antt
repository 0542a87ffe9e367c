-- ===== src/Dialog/Acks.antt =====
-- Acknowledging an INVITE, and 200 responses that come again.
use belle_sip.Prelude.{
  ℕ, ◌≡◌, ◌==◌, Bool, true, false, not, ◌&&◌, Option, none, some, ◌∷◌, is_some, arith, ltb, leb,
  if◌then◌else◌,
}
use belle_sip.Transaction.Base.{State}
use belle_sip.Dialog.Defs.{
  DialogState, confirmed, Request, Response, Transaction, Dialog, send_ack_request, process_later,
  is_invite,
}
use belle_sip.Dialog.Update.{
  update, update_null, update_early, update_confirmed, reinvited, handle_200Ok, establish,
  note_transaction, caller,
}
use belle_sip.Dialog.Requests.{send_ack, handle_ack, check_ack_sent}

abbrev is_confirmed : DialogState → Bool
is_confirmed confirmed = true
is_confirmed _ = false

abbrev same_seq : Option ℕ → Option ℕ → Bool
same_seq (some n) (some m) = n == m
same_seq _ _ = false

abbrev is_2xx : ℕ → Bool
is_2xx c = leb 200 c && ltb c 300

abbrev answers_seq : Option Response → Option ℕ → Bool
answers_seq none seq = false
answers_seq (some r) seq = same_seq r.cseq seq

abbrev answers : Option Response → Option ℕ → Bool
answers none seq = false
answers (some r) seq = is_2xx r.code && same_seq r.cseq seq

early-result :
    (req : Request) (resp : Option Response) (d : Dialog) → (update_early req resp d).1 ≡ false
unfolding update_early
early-result req resp d = ground arith

null-result :
    (req : Request) (resp : Option Response) (d : Dialog) → (update_null req resp d).1 ≡ false
unfolding update_null
null-result req none d = ground (arith, early-result req none d)
null-result req (some r) d =
    ground (arith, early-result req (some r) d, early-result req (some r) (establish req r d).0)

reinvited-result :
    (as_uas : Bool) (req : Request) (resp : Option Response) (d : Dialog)
    → (reinvited as_uas req resp d).1 ≡ (not as_uas && answers_seq resp d.last_out_ack)
unfolding reinvited handle_200Ok
reinvited-result true req resp d = ground arith
reinvited-result false req none d = ground arith
reinvited-result false req (some r) d = ground arith

confirmed-result :
    (s : State) (as_uas : Bool) (req : Request) (resp : Option Response) (d : Dialog)
    → (update_confirmed s as_uas req resp d).1
      ≡ (not as_uas && is_invite req.method && answers resp d.last_out_ack)
unfolding update_confirmed
confirmed-result s as_uas req none d = ground (arith, reinvited-result as_uas req none d)
confirmed-result s as_uas req (some r) d = ground (arith, reinvited-result as_uas req (some r) d)

note-same :
    (t : Transaction) (as_uas : Bool) (d : Dialog)
    → let d1 = note_transaction t as_uas d in
      (d1.state ≡ d.state) × (d1.last_out_ack ≡ d.last_out_ack)
note-same t as_uas d = ground arith

-- An update is answered with TRUE, so that the response is kept from the listener, exactly when a
-- confirmed dialog's client INVITE got a 2xx response with the sequence number of the last ACK.
pub update_result :
    (t : Transaction) (as_uas : Bool) (d : Dialog)
    → (update t as_uas d).1 ≡ (
        is_confirmed d.state
        && not as_uas
        && is_invite t.request.method
        && answers t.last_response d.last_out_ack)
unfolding update
update_result t as_uas d =
    let d1 = note_transaction t as_uas d in
    ground (
      arith,
      note-same t as_uas d,
      null-result t.request t.last_response d1,
      early-result t.request t.last_response d1,
      confirmed-result t.state as_uas t.request t.last_response d1,
    )

-- Then the ACK goes out again, and neither the state, nor the wait for an ACK, nor the queue
-- changes.
pub retransmission_absorbed :
    (s : State) (req : Request) (r : Response) (d : Dialog) (n : ℕ)
    → is_invite req.method ≡ true
    → is_2xx r.code ≡ true
    → r.cseq ≡ some n
    → d.state ≡ confirmed
    → d.last_out_ack ≡ some n
    → is_some d.remote_target ≡ true
    → let u = (update (caller s req r) false d).0 in
      (u.log ≡ send_ack_request n ∷ d.log)
      × (u.state ≡ confirmed)
      × (u.needs_ack ≡ d.needs_ack)
      × (u.queued ≡ d.queued)
unfolding update update_confirmed reinvited handle_200Ok
retransmission_absorbed s req r d n i c q st a t = ground arith

-- Of two ACKs that the listener sends, the first goes out if one is needed, and the second never.
pub send_ack_once :
    (n m : ℕ) (d : Dialog)
    → (send_ack m (send_ack n d) ≡ send_ack n d)
      × ((send_ack n d).needs_ack ≡ false)
      × ((send_ack n d).log
          ≡ (if d.needs_ack then process_later ∷ send_ack_request n ∷ d.log else d.log))
unfolding send_ack
send_ack_once n m d = ground arith

-- Of two ACKs that arrive, the first is taken if one is needed and its number is that of the
-- INVITE, and then stops the retransmissions of the 200 response; the second is taken only if the
-- first was not, one is needed and its own number is right.
pub handle_ack_once :
    (n m : ℕ) (d : Dialog)
    → let (e, taken) = handle_ack n d in
      (taken ≡ (d.needs_ack && n == d.remote_cseq))
      × ((handle_ack m e).1 ≡ (not taken && d.needs_ack && m == d.remote_cseq))
      × (e.timer_200Ok ≡ (if taken then none else d.timer_200Ok))
      × (e.timer_200Ok_end ≡ (if taken then none else d.timer_200Ok_end))
      × (e.last_200Ok ≡ (if taken then none else d.last_200Ok))
unfolding handle_ack
handle_ack_once n m d = ground arith

-- Once an ACK has been sent, or one has been taken, the check for a missing ACK does nothing.
pub acked-check_ack_sent :
    (n : ℕ) (d : Dialog)
    → (handle_ack n d).1 ≡ true
    → (check_ack_sent (send_ack n d) ≡ send_ack n d)
      × (check_ack_sent (handle_ack n d).0 ≡ (handle_ack n d).0)
unfolding check_ack_sent send_ack handle_ack
acked-check_ack_sent n d e = ground arith
