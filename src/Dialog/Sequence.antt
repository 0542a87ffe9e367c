-- ===== src/Dialog/Sequence.antt =====
-- Sequence numbers of a dialog's requests.
use belle_sip.Prelude.{
  ℕ, ◌+◌, ◌^◌, ◌<◌, ◌≡◌, ◌≢◌, ◌⊎◌, ◌↔◌, ◌==◌, ◌&&◌, u32, true, false, some, ltb, arith,
  if◌then◌else◌,
}
use belle_sip.Transaction.Base.{Method}
use belle_sip.Dialog.Defs.{confirmed, Dialog, is_ack, is_bye, request_pending}
use belle_sip.Dialog.Requests.{
  NewRequest, made, refused, create_request, check_incoming_request_ordering, can_request,
  is_update,
}

-- A request that a dialog makes carries the dialog's target and routes and its new sequence
-- number, which the dialog keeps: the old one, or 110 if there was none, plus one unless the
-- request is an ACK; and a dialog that made one is early or confirmed.
pub create_request_numbers :
    (m : Method) (d : Dialog) (r : NewRequest)
    → (create_request m d).1 ≡ made r
    → let e = (create_request m d).0 in
      let old = if d.local_cseq == 0 then 110 else d.local_cseq in
      (r.cseq ≡ e.local_cseq)
      × (r.cseq ≡ (if is_ack m then old else u32 (old + 1)))
      × (r.method ≡ m)
      × (some r.target ≡ d.remote_target)
      × (r.routes ≡ d.route_set)
      × (can_request d.state ≡ true)
unfolding create_request
create_request_numbers m d r e = ground arith

-- A request is refused exactly in a dialog that is neither early nor confirmed, and in a confirmed
-- one while a transaction is pending unless it is a BYE or an UPDATE; the dialog is then unchanged.
pub create_request-refused :
    (m : Method) (d : Dialog)
    → ((create_request m d).1 ≡ refused) ↔ (
        ((create_request m d).0 ≡ d)
        × ((can_request d.state ≡ false)
            ⊎ ((d.state ≡ confirmed)
                × (request_pending d ≡ true)
                × (is_bye m ≡ false)
                × (is_update m ≡ false))))
unfolding create_request
create_request-refused m d = (ground arith, ground arith)

made_cseq :
    (m : Method) (d : Dialog) (r : NewRequest)
    → is_ack m ≡ false
    → (create_request m d).1 ≡ made r
    → (r.cseq ≡ u32 ((if d.local_cseq == 0 then 110 else d.local_cseq) + 1))
      × ((create_request m d).0.local_cseq ≡ r.cseq)
unfolding create_request
made_cseq m d r a e = ground arith

-- Two requests made one after the other, neither an ACK, have consecutive numbers.
pub create_request_twice :
    (m k : Method) (d : Dialog) (r q : NewRequest)
    → is_ack m ≡ false
    → is_ack k ≡ false
    → (create_request m d).1 ≡ made r
    → (create_request k (create_request m d).0).1 ≡ made q
    → r.cseq + 1 < 2 ^ 32
    → r.cseq ≢ 0
    → q.cseq ≡ r.cseq + 1
create_request_twice m k d r q a b x y h z =
    let first = (made_cseq m d r a x).1 in
    let second = (made_cseq k (create_request m d).0 q b y).0 in ground arith

-- The check of an incoming request lets it through exactly if a number is known and its own is
-- greater. It remembers the number only while none is known: then the request is refused.
pub ordering_outcome :
    (cseq : ℕ) (d : Dialog)
    → let (e, ok) = check_incoming_request_ordering cseq d in
      (ok ≡ (ltb 0 d.remote_cseq && ltb d.remote_cseq cseq))
      × (e.remote_cseq ≡ (if d.remote_cseq == 0 then cseq else d.remote_cseq))
      × (e.state ≡ d.state)
unfolding check_incoming_request_ordering
ordering_outcome cseq d = ground arith
