-- ===== src/Channel/Queue.antt =====
-- The queue of src/channel.c with a socket that takes all it is given: each message leaves whole and in
-- its turn.
use belle_sip.Prelude.{
  ◌+◌, ◌-◌, ◌<◌, ◌≤◌, ◌≡◌, ◌∙◌, refl, sym, ap, inl, inr, true, false, Option, none, some,
  Option-cases, List, [], ◌∷◌, ◌++◌, length, length-append, leb, Bool-cases, arith, String,
}
use mathlib.Core.List.{append-nil}
use mathlib.Core.Path.{subst}
use belle_sip.Channel.Connection.{is_ready}
use belle_sip.Channel.Output.{
  Message, sending_headers, sending_body, Output, room, done, check_content_length, Next, onward,
  finished, send_text, flush, send_headers, send_body, body_part, and_then, conclude,
  resume_message, send_message, send_queue, process_queue,
}
use belle_sip.Channel.Sending.{
  AllAccept, CanSend, HasSent, HasSent-trans, send_text_whole, send_body_whole,
}

abbrev pub printed : Message → Option String
printed m = m.marshal (check_content_length m.content_length (length m.body))

-- What a message is printed to: its headers, and its body behind them.
abbrev pub headers : Message → String
headers m = elim (printed m) [ none ↦ [] | some head ↦ head ]

abbrev pub text_of : Message → String
text_of m = headers m ++ m.body

abbrev pub texts : List Message → String
texts [] = []
texts (m ∷ ms) = text_of m ++ texts ms

-- Messages whose headers can be printed.
abbrev pub Printable : List Message → Type 0
Printable [] = Unit
Printable (m ∷ ms) = (0 < length (headers m)) × Printable ms

pub and_then_onward :
    (f : Output → Output × Next) (r : Output × Next) → r.1 ≡ onward → and_then f r ≡ f r.0
and_then_onward f r e = rw e refl

conclude_finished : (r : Output × Next) → r.1 ≡ finished → conclude r ≡ done r.0
conclude_finished r e = rw e refl

pub body_part_headers : (o : Output) → o.out_state ≡ sending_headers → body_part o ≡ (o, finished)
body_part_headers o e = rw e refl

body_part_body :
    (o : Output) → o.out_state ≡ sending_body → body_part o ≡ send_body (length o.to_send + 1) o
body_part_body o e = rw e refl

-- A channel whose next message is `m`.
abbrev pub begin : Message → Output → Output
begin m o = record (done o) { cur_out_message = some m; out_state = sending_headers }

pub send_headers_fit :
    (m : Message) (o : Output) (head : String)
    → printed m ≡ some head
    → leb (length m.body) (room - length head) ≡ true
    → send_headers (record o { cur_out_message = some m })
      ≡ send_text (head ++ m.body) (record o { cur_out_message = some m })
unfolding send_headers
send_headers_fit m o head e f = rw (e, f, send_headers) refl

send_headers_large :
    (m : Message) (o : Output) (head : String)
    → printed m ≡ some head
    → leb (length m.body) (room - length head) ≡ false
    → send_headers (begin m o)
      ≡ send_text head (record (begin m o) { to_send = m.body; out_state = sending_body })
unfolding send_headers done
send_headers_large m o head e f = rw (e, f, send_headers) refl

send_message_headers :
    (m : Message) (o : Output)
    → send_message m (done o) ≡ conclude (and_then body_part (send_headers (begin m o)))
unfolding send_message resume_message flush done
send_message_headers m o = refl

fit_whole :
    (m : Message) (o : Output) (head : String)
    → printed m ≡ some head
    → leb (length m.body) (room - length head) ≡ true
    → 0 < length head
    → CanSend o (length (head ++ m.body))
    → HasSent (done o) (head ++ m.body) (send_message m (done o))
unfolding done
fit_whole m o head e f pos c =
    let text = head ++ m.body in
    let p = begin m o in
    let can : CanSend p (length text) = record {
      ready_replies = c.ready_replies;
      replies_left = c.replies_left;
    } in
    let (v, s) = send_text_whole text p can (omega (arith, length-append head m.body, pos)) in
    let r = send_text text p in
    let result : send_message m (done o) ≡ done r.0 =
      send_message_headers m o
      ∙ ap (λ k. conclude (and_then body_part k)) (send_headers_fit m p head e f)
      ∙ ap conclude (and_then_onward body_part r v)
      ∙ ap conclude (body_part_headers r.0 (ap (λ x. x.out_state) s.after)) in
    subst (λ q. HasSent (done o) text q) (sym result)
      (record {
        replies_after = s.replies_after;
        accepts_after = s.accepts_after;
        enough_after = s.enough_after;
        after = ap done s.after;
      })

large_whole :
    (m : Message) (o : Output) (head : String)
    → printed m ≡ some head
    → leb (length m.body) (room - length head) ≡ false
    → 0 < length head
    → CanSend o (length (head ++ m.body))
    → HasSent (done o) (head ++ m.body) (send_message m (done o))
unfolding done
large_whole m o head e f pos c =
    let p : Output = record (begin m o) { to_send = m.body; out_state = sending_body } in
    let total = length-append head m.body in
    let can : CanSend p (length head) = record {
      ready_replies = c.ready_replies;
      replies_left = omega (arith, c.replies_left, total);
    } in
    let (v, s) = send_text_whole head p can pos in
    let r = send_text head p in
    let q : r.0.to_send ≡ m.body = ap (λ x. x.to_send) s.after in
    let ra : r.0.replies ≡ s.replies_after = ap (λ x. x.replies) s.after in
    let can_body : CanSend r.0 (length r.0.to_send) = record {
      ready_replies = subst AllAccept (sym ra) s.accepts_after;
      replies_left =
          omega (arith, s.enough_after, ap length ra, ap length q, c.replies_left, total);
    } in
    let (w, t) = send_body_whole (length r.0.to_send + 1) r.0 can_body (omega arith) in
    let b = send_body (length r.0.to_send + 1) r.0 in
    let result : send_message m (done o) ≡ done b.0 =
      send_message_headers m o
      ∙ ap (λ k. conclude (and_then body_part k)) (send_headers_large m o head e f)
      ∙ ap conclude (and_then_onward body_part r v)
      ∙ ap conclude (body_part_body r.0 (ap (λ x. x.out_state) s.after))
      ∙ conclude_finished b w in
    let first : HasSent (done o) head (done r.0) = record {
      replies_after = s.replies_after;
      accepts_after = s.accepts_after;
      enough_after = s.enough_after;
      after = ap done s.after;
    } in
    let second : HasSent (done r.0) m.body (done b.0) =
      subst (λ x. HasSent (done r.0) x (done b.0)) q
        (record {
          replies_after = t.replies_after;
          accepts_after = t.accepts_after;
          enough_after = t.enough_after;
          after = ap done t.after;
        }) in
    subst (λ x. HasSent (done o) (head ++ m.body) x) (sym result)
      (HasSent-trans (done o) (done r.0) (done b.0) head m.body first second)

send_message_whole :
    (m : Message) (o : Output)
    → 0 < length (headers m)
    → CanSend o (length (text_of m))
    → HasSent (done o) (text_of m) (send_message m (done o))
send_message_whole m o pos c = elim (Option-cases (printed m)) [
  | inl e ↦ absurd (omega (arith, pos, ap (λ p. length (elim p [ none ↦ [] | some h ↦ h ])) e))
  | inr (head, e) ↦
      let whole : HasSent (done o) (head ++ m.body) (send_message m (done o)) =
        let h : headers m ≡ head = ap (λ p. elim p [ none ↦ [] | some h ↦ h ]) e in
        let pos2 : 0 < length head = subst (λ x. 0 < length x) h pos in
        let c2 : CanSend o (length (head ++ m.body)) =
          subst (λ x. CanSend o (length (x ++ m.body))) h c in
        elim (Bool-cases (leb (length m.body) (room - length head))) [
          | inl f ↦ fit_whole m o head e f pos2 c2
          | inr f ↦ large_whole m o head e f pos2 c2
        ] in
      subst (λ x. HasSent (done o) (x ++ m.body) (send_message m (done o)))
        (sym (ap (λ p. elim p [ none ↦ [] | some h ↦ h ]) e)) whole
]

pub send_queue_next :
    (m : Message) (ms : List Message) (o : Output)
    → is_ready o.connection.state ≡ true
    → send_queue (m ∷ ms) (done o) ≡ send_queue ms (send_message m (done o))
unfolding send_queue done
send_queue_next m ms o e = rw (e, send_queue) refl

-- A channel of which the queue is empty.
abbrev pub emptied : Output → Output
emptied o = record o { outgoing = [] }

pub send_queue_whole :
    (ms : List Message) (o : Output)
    → is_ready o.connection.state ≡ true
    → Printable ms
    → CanSend o (length (texts ms))
    → HasSent (emptied (done o)) (texts ms) (send_queue ms (done o))
unfolding send_queue done
send_queue_whole [] o e p c = record {
  replies_after = o.replies;
  accepts_after = c.ready_replies;
  enough_after = omega arith;
  after = ap (λ w. record (emptied (done o)) { wire = w }) (sym (append-nil o.wire));
}
send_queue_whole (m ∷ ms) o e (p, ps) c =
    let total = length-append (text_of m) (texts ms) in
    let can : CanSend o (length (text_of m)) = record {
      ready_replies = c.ready_replies;
      replies_left = omega (arith, c.replies_left, total);
    } in
    let s = send_message_whole m o p can in
    let q = send_message m (done o) in
    let ra : q.replies ≡ s.replies_after = ap (λ x. x.replies) s.after in
    let at_rest : done q ≡ q = ap done s.after ∙ sym s.after in
    let can_rest : CanSend q (length (texts ms)) = record {
      ready_replies = subst AllAccept (sym ra) s.accepts_after;
      replies_left = omega (arith, s.enough_after, ap length ra, c.replies_left, total);
    } in
    let first : HasSent (emptied (done o)) (text_of m) (emptied (done q)) = record {
      replies_after = s.replies_after;
      accepts_after = s.accepts_after;
      enough_after = s.enough_after;
      after = ap (λ x. emptied (done x)) s.after;
    } in
    let rest =
      send_queue_whole ms q (ap (λ x. is_ready x.connection.state) s.after ∙ e) ps can_rest in
    subst (λ x. HasSent (emptied (done o)) (texts (m ∷ ms)) x)
      (ap (send_queue ms) at_rest ∙ sym (send_queue_next m ms o e))
      (HasSent-trans (emptied (done o)) (emptied (done q)) (send_queue ms (done q)) (text_of m)
        (texts ms) first rest)

-- Where a channel is ready and has nothing under way, and the socket takes bytes whenever it is asked
-- and as often as there are bytes to send, then its queue, of messages whose headers can be printed,
-- is empty in the end, and the socket has been given the texts of all of them in the order of the
-- queue, each whole (the headers, then a body of any length); the connection is as it was, and again
-- nothing is under way.
pub sent_in_order :
    (o : Output)
    → o ≡ done o
    → is_ready o.connection.state ≡ true
    → Printable o.outgoing
    → AllAccept o.replies
    → length (texts o.outgoing) ≤ length o.replies
    → ((process_queue o).wire ≡ o.wire ++ texts o.outgoing)
      × ((process_queue o).outgoing ≡ [])
      × ((process_queue o).connection ≡ o.connection)
      × (process_queue o ≡ done (process_queue o))
unfolding done process_queue
sent_in_order o rest e p a n =
    let s = send_queue_whole o.outgoing o e p (record { ready_replies = a; replies_left = n }) in
    let run : process_queue o ≡ send_queue o.outgoing (done o) = ap process_queue rest in
    let after = run ∙ s.after in
    (
      ap (λ x. x.wire) after,
      ap (λ x. x.outgoing) after,
      ap (λ x. x.connection) after,
      after ∙ ap done (sym after),
    )
