-- ===== src/Channel/Blocking.antt =====
-- What src/channel.c does with its queue when the socket blocks in the middle of a message.
use belle_sip.Prelude.{
  take-drop, ℕ, ◌+◌, ◌-◌, ◌*◌, ◌<◌, ◌≤◌, ◌≡◌, ◌∙◌, refl, sym, ap, min, true, false, ◌==◌, none,
  some, List, [], ◌∷◌, ◌++◌, length, length-append, length-drop, take, drop, leb, arith, String,
}
use mathlib.Core.List.{append_assoc, append-nil}
use mathlib.Core.Path.{subst}
use belle_sip.Channel.Connection.{is_ready}
use belle_sip.Channel.Output.{
  Message, Verdict, after_verdict, Reply, accept, would_block, Output, room, all_sent, would_wait,
  deliver, delivered, done, onward, suspended, send_text, flush, headers_part, body_part, and_then,
  conclude, handle_ewouldblock, resume_message, send_message, send_queue, process_queue,
}
use belle_sip.Channel.Sending.{AllAccept, deliver-Whole, CanSend, HasSent, send_text_whole}
use belle_sip.Channel.Queue.{
  printed, texts, Printable, and_then_onward, body_part_headers, begin, send_headers_fit,
  send_queue_next, send_queue_whole,
}

deliver_blocked :
    (k : ℕ) (rs : List Reply) (text : String)
    → k + 1 < length text
    → deliver (accept k ∷ would_block ∷ rs) text ≡ record {
      sent = take (k + 1) text;
      left = drop (k + 1) text;
      unused = rs;
      verdict = would_wait;
    }
unfolding deliver
deliver_blocked k rs text h =
    let n : min (k + 1) (length text) ≡ k + 1 = omega arith in
    let taken : (k + 1 == 0) ≡ false = ground arith in
    let some_left : (length (drop (k + 1) text) == 0) ≡ false =
      ground (arith, length-drop (k + 1) text) in
    rw (n, taken, some_left, deliver)
      (ap (λ t. record { sent = t; left = drop (k + 1) text; unused = rs; verdict = would_wait })
        (append-nil (take (k + 1) text)))

-- A channel with the message `m`, of which `left` is still to be sent.
abbrev pub blocked_in : Message → String → String → List Reply → Output → Output
blocked_in m sent left rs o = record (begin m o) {
  wants_write = true;
  blocked = some left;
  wire = o.wire ++ sent;
  replies = rs;
}

send_text_blocked :
    (k : ℕ) (rs : List Reply) (text : String) (o : Output)
    → k + 1 < length text
    → o.replies ≡ accept k ∷ would_block ∷ rs
    → send_text text o ≡ (
      record o {
        wants_write = true;
        blocked = some (drop (k + 1) text);
        wire = o.wire ++ take (k + 1) text;
        replies = rs;
      },
      suspended,
    )
unfolding send_text handle_ewouldblock
send_text_blocked k rs text o h e =
    let d = ap (λ r. deliver r text) e ∙ deliver_blocked k rs text h in
    rw (d, send_text) (ap (λ x. (handle_ewouldblock x.left (delivered x o), suspended)) d)

blocked_first :
    (m m2 : Message) (ms : List Message) (o : Output) (head : String) (k : ℕ) (rs : List Reply)
    → o ≡ done o
    → is_ready o.connection.state ≡ true
    → o.outgoing ≡ m ∷ m2 ∷ ms
    → printed m ≡ some head
    → leb (length m.body) (room - length head) ≡ true
    → o.replies ≡ accept k ∷ would_block ∷ rs
    → k + 1 < length (head ++ m.body)
    → process_queue o
      ≡ record (blocked_in m (take (k + 1) (head ++ m.body)) (drop (k + 1) (head ++ m.body)) rs o) {
        outgoing = ms;
      }
unfolding process_queue done send_message resume_message flush send_queue
blocked_first m m2 ms o head k rs rest e q h f r l =
    let text = head ++ m.body in
    let p = begin m o in
    let sent = send_headers_fit m p head h f ∙ send_text_blocked k rs text p l r in
    let message : send_message m (done o)
        ≡ blocked_in m (take (k + 1) text) (drop (k + 1) text) rs o =
      ap (λ x. conclude (and_then body_part x)) sent in
    ap process_queue rest
    ∙ ap (λ x. send_queue x (done o)) q
    ∙ send_queue_next m (m2 ∷ ms) o e
    ∙ ap (send_queue (m2 ∷ ms)) message
    ∙ rw (e, send_queue) refl

flush_whole :
    (p : Output) (text : String)
    → (deliver p.replies text).verdict ≡ all_sent
    → flush (record p { blocked = some text }) ≡ (
      record p {
        blocked = none;
        wire = p.wire ++ (deliver p.replies text).sent;
        replies = (deliver p.replies text).unused;
      },
      onward,
    )
unfolding flush
flush_whole p text v =
    rw (v, flush)
      (ap {A = Verdict}
        (λ x. (
          record p {
            connection = after_verdict x p.connection;
            blocked = none;
            wire = p.wire ++ (deliver p.replies text).sent;
            replies = (deliver p.replies text).unused;
          },
          onward,
        ))
        v)

-- When the socket takes bytes again, the rest of the message is sent, then the message from its start.
sent_again :
    (m : Message) (o : Output) (head sent left : String) (rs : List Reply)
    → printed m ≡ some head
    → leb (length m.body) (room - length head) ≡ true
    → 0 < length left
    → 0 < length head
    → AllAccept rs
    → length left + length (head ++ m.body) ≤ length rs
    → HasSent
        (record (done o) { wire = o.wire ++ sent; replies = rs })
        (left ++ (head ++ m.body))
        (resume_message (blocked_in m sent left rs o))
unfolding resume_message flush done
sent_again m o head sent left rs h f pl ph a n =
    let text = head ++ m.body in
    let w = deliver-Whole rs left a pl (omega arith) in
    let d = deliver rs left in
    let q : Output = record (begin m o) {
      wants_write = true;
      wire = (o.wire ++ sent) ++ d.sent;
      replies = d.unused;
    } in
    let can : CanSend q (length text) = record {
      ready_replies = w.accepts;
      replies_left = omega (arith, w.enough);
    } in
    let (v, s) = send_text_whole text q can (omega (arith, length-append head m.body)) in
    let r = send_text text q in
    let flushed = flush_whole (blocked_in m sent left rs o) left w.verdict_is in
    let result : resume_message (blocked_in m sent left rs o) ≡ done r.0 =
      ap (λ x. conclude (and_then body_part (and_then headers_part x))) flushed
      ∙ ap (λ x. conclude (and_then body_part x)) (send_headers_fit m q head h f)
      ∙ ap conclude (and_then_onward body_part r v)
      ∙ ap conclude (body_part_headers r.0 (ap (λ x. x.out_state) s.after)) in
    subst (HasSent (record (done o) { wire = o.wire ++ sent; replies = rs }) (left ++ text))
      (sym result)
      (record {
        replies_after = s.replies_after;
        accepts_after = s.accepts_after;
        enough_after = omega (arith, s.enough_after, w.enough, length-append left text);
        after =
            ap done s.after
            ∙ ap
                (λ x. record (done o) {
                  wire = ((o.wire ++ sent) ++ x) ++ text;
                  replies = s.replies_after;
                })
                w.sent_is
            ∙ ap (λ x. record (done o) { wire = x; replies = s.replies_after })
                (append_assoc (o.wire ++ sent) left text);
      })

append_regroup : (w a b c d : String) → ((w ++ a) ++ (b ++ c)) ++ d ≡ w ++ ((a ++ b) ++ (c ++ d))
append_regroup w a b c d = simp append_assoc refl

-- Where a channel is ready and has nothing under way, the first message of its queue fits the buffer
-- with its body, and the socket blocks after it has taken a part of it, then the message that was
-- second is in the queue no more, and when the socket takes bytes again the message is finished and
-- then sent once more from its start, and the messages from the third on follow: the second is never
-- sent.
pub blocked_message :
    (m m2 : Message) (ms : List Message) (o : Output) (head : String) (k : ℕ) (rs : List Reply)
    → o ≡ done o
    → is_ready o.connection.state ≡ true
    → o.outgoing ≡ m ∷ m2 ∷ ms
    → printed m ≡ some head
    → 0 < length head
    → length head + length m.body ≤ room
    → Printable ms
    → o.replies ≡ accept k ∷ would_block ∷ rs
    → k + 1 < length (head ++ m.body)
    → AllAccept rs
    → 2 * length (head ++ m.body) + length (texts ms) ≤ length rs
    → ((process_queue o).wire ≡ o.wire ++ take (k + 1) (head ++ m.body))
      × ((process_queue o).outgoing ≡ ms)
      × ((process_queue (process_queue o)).wire
          ≡ o.wire ++ ((head ++ m.body) ++ ((head ++ m.body) ++ texts ms)))
      × ((process_queue (process_queue o)).outgoing ≡ [])
unfolding process_queue done
blocked_message m m2 ms o head k rs rest e q h ph fits ps r l a n =
    let text = head ++ m.body in
    let sent = take (k + 1) text in
    let left = drop (k + 1) text in
    let f : leb (length m.body) (room - length head) ≡ true = ground arith in
    let first = blocked_first m m2 ms o head k rs rest e q h f r l in
    let o2 = record o { outgoing = ms } in
    let len = length-drop (k + 1) text in
    let again =
      sent_again m o2 head sent left rs h f (omega (arith, len, l)) ph a (omega (arith, len, n)) in
    let p = resume_message (blocked_in m sent left rs o2) in
    let idle_again : p ≡ done p = again.after ∙ ap done (sym again.after) in
    let ra : p.replies ≡ again.replies_after = ap (λ x. x.replies) again.after in
    let can : CanSend p (length (texts ms)) = record {
      ready_replies = subst AllAccept (sym ra) again.accepts_after;
      replies_left =
          omega (arith, again.enough_after, ap length ra, length-append left text, len, n);
    } in
    let queue =
      send_queue_whole ms p (ap (λ x. is_ready x.connection.state) again.after ∙ e) ps can in
    let second : process_queue (process_queue o) ≡ send_queue ms (done p) =
      ap process_queue first
      ∙ ap (λ x. send_queue x p) (ap (λ x. x.outgoing) again.after)
      ∙ ap (send_queue ms) idle_again in
    let wire_after = ap (λ x. x.wire) again.after in
    (
      ap (λ x. x.wire) first,
      ap (λ x. x.outgoing) first,
      ap (λ x. x.wire) (second ∙ queue.after)
          ∙ ap (λ w. w ++ texts ms) wire_after
          ∙ append_regroup o.wire sent left text (texts ms)
          ∙ ap (λ x. o.wire ++ (x ++ (text ++ texts ms))) (take-drop (k + 1) text),
      ap (λ x. x.outgoing) (second ∙ queue.after),
    )
