-- ===== src/Channel/Output.antt =====
-- The outgoing side of src/channel.c: messages are queued, printed and sent in as many pieces as the
-- socket takes. A body is what a memory body handler holds. What the socket answers to each send is
-- a list, used from the front; where it ends, a send would block. The listeners do nothing to the
-- channel while they are told of a message that is sent; the timer of inactivity and the test options of
-- the stack are left out.
use belle_sip.Prelude.{
  ℕ, zero, suc, ◌+◌, ◌-◌, min, Bool, true, false, ◌==◌, ◌&&◌, Option, none, some, List, [], ◌∷◌,
  ◌++◌, length, take, drop, leb, ◌<◌, arith, if◌then◌else◌, String,
}
use belle_sip.Lists.Values.{append}
use belle_sip.Channel.Connection.{
  Connection, init, ready, error, is_ready, channel_set_state, channel_resolve, set_ready,
}

-- A message to send: its Content-Length header, its body (empty if there is no body handler), and what
-- the headers are printed to for each Content-Length, if they fit the buffer.
pub record Message : Type 0 where
  pub content_length : Option ℕ
  pub body : String
  pub marshal : Option ℕ → Option String

-- What a send answers: at most so many bytes and one more were taken, EWOULDBLOCK, 0, or an error.
pub data Reply : Type 0 where
  accept : ℕ → Reply
  would_block closed broken : Reply

pub data OutputState : Type 0 where
  idle sending_headers sending_body : OutputState

-- `blocked` is what is left of ewouldblock_buffer, `to_send` what the body handler has not given yet,
-- `wire` what the socket has taken, and `wants_write` says if the channel waits until it can write.
pub record Output : Type 0 where
  pub connection : Connection
  pub out_state : OutputState
  pub cur_out_message : Option Message
  pub outgoing : List Message
  pub blocked : Option String
  pub to_send : String
  pub wants_write : Bool
  pub wire : String
  pub replies : List Reply

-- sizeof(buffer)-1
unfoldable pub room : ℕ
room = 16383

pub room_positive : 0 < room
unfolding room
room_positive = omega arith

-- How an attempt to send a text ends.
pub data Verdict : Type 0 where
  all_sent would_wait gone failed : Verdict

pub record Delivery : Type 0 where
  pub sent : String
  pub left : String
  pub unused : List Reply
  pub verdict : Verdict

-- A text is sent until all of it was taken, or something else is answered.
unfoldable pub deliver : List Reply → String → Delivery
deliver [] text = record { sent = []; left = text; unused = []; verdict = would_wait }
deliver (accept k ∷ rs) text =
    let n = min (k + 1) (length text) in
    let rest = deliver rs (drop n text) in
    if n == 0
    then record { sent = []; left = text; unused = rs; verdict = gone }
    else if length (drop n text) == 0
    then record { sent = take n text; left = []; unused = rs; verdict = all_sent }
    else record rest { sent = take n text ++ rest.sent }
deliver (would_block ∷ rs) text = record {
  sent = [];
  left = text;
  unused = rs;
  verdict = would_wait;
}
deliver (closed ∷ rs) text = record { sent = []; left = text; unused = rs; verdict = gone }
deliver (broken ∷ rs) text = record { sent = []; left = text; unused = rs; verdict = failed }

abbrev pub after_verdict : Verdict → Connection → Connection
after_verdict failed c = channel_set_state error c
after_verdict _ c = c

-- The bytes that a delivery has sent, and the error that it has met.
abbrev pub delivered : Delivery → Output → Output
delivered d o = record o {
  wire = o.wire ++ d.sent;
  replies = d.unused;
  connection = after_verdict d.verdict o.connection;
}

-- The label `done` of _send_message; a message is released together with its body handler.
unfoldable pub done : Output → Output
done o = record o {
  wants_write = false;
  blocked = none;
  out_state = idle;
  cur_out_message = none;
  to_send = [];
}

unfoldable pub handle_ewouldblock : String → Output → Output
handle_ewouldblock left o = record o { wants_write = true; blocked = some left }

-- The Content-Length that a message is sent with.
unfoldable pub check_content_length : Option ℕ → ℕ → Option ℕ
check_content_length none zero = none
check_content_length none (suc n) = some (suc n)
check_content_length (some v) n = some v

-- What goes on after a part of a message: the next part, or a return, with the message done or not.
pub data Next : Type 0 where
  onward finished suspended : Next

-- A text is sent; if the socket would block the rest is kept.
unfoldable pub send_text : String → Output → Output × Next
unfolding deliver handle_ewouldblock
send_text text o =
    let d = deliver o.replies text in
    let p = delivered d o in
    elim d.verdict [
      | all_sent ↦ (p, onward)
      | would_wait ↦ (handle_ewouldblock d.left p, suspended)
      | _ ↦ (p, finished)
    ]

-- The loop over ewouldblock_buffer.
unfoldable pub flush : Output → Output × Next
unfolding deliver
flush o = elim o.blocked [
  | none ↦ (o, onward)
  | some text ↦
      let d = deliver o.replies text in
      let p = delivered d o in
      elim d.verdict [
        | all_sent ↦ (record p { blocked = none }, onward)
        | would_wait ↦ (record p { blocked = some d.left }, suspended)
        | _ ↦ (p, finished)
      ]
]

-- The headers, with the body if that fits behind them.
unfoldable pub send_headers : Output → Output × Next
unfolding send_text check_content_length
send_headers o = elim o.cur_out_message [
  | none ↦ (o, finished)
  | some m ↦ elim (m.marshal (check_content_length m.content_length (length m.body))) [
    | none ↦ (o, finished)
    | some head ↦
        if leb (length m.body) (room - length head)
        then send_text (head ++ m.body) o
        else send_text head (record o { to_send = m.body; out_state = sending_body })
  ]
]

abbrev pub send_chunk : String → Output → Output × Next
send_chunk [] o = (o, onward)
send_chunk (a ∷ chunk) o = send_text (a ∷ chunk) o

-- The loop goes on behind a chunk that is not the last.
abbrev pub next_chunk : Bool → Output × Next → Output × Next → Output × Next
next_chunk last r rest = elim r.1 [ onward ↦ if last then (r.0, finished) else rest | _ ↦ r ]

-- A chunk of the body after another; on fuel.
unfoldable pub send_body : ℕ → Output → Output × Next
unfolding send_text
send_body zero o = (o, finished)
send_body (suc fuel) o =
    let o1 = record o { to_send = drop room o.to_send } in
    let r = send_chunk (take room o.to_send) o1 in
    let rest = send_body fuel r.0 in next_chunk (length o1.to_send == 0) r rest

-- Each part is run if the message is in its state.
abbrev pub headers_part : Output → Output × Next
headers_part o = elim o.out_state [ sending_headers ↦ send_headers o | _ ↦ (o, onward) ]

abbrev pub body_part : Output → Output × Next
body_part o = elim o.out_state [
  | sending_body ↦ send_body (length o.to_send + 1) o
  | _ ↦ (o, finished)
]

abbrev pub and_then : (Output → Output × Next) → Output × Next → Output × Next
and_then f r = elim r.1 [ onward ↦ f r.0 | _ ↦ r ]

abbrev pub conclude : Output × Next → Output
conclude r = elim r.1 [ suspended ↦ r.0 | _ ↦ done r.0 ]

unfoldable pub resume_message : Output → Output
unfolding flush send_headers send_body done
resume_message o = conclude (and_then body_part (and_then headers_part (flush o)))

unfoldable pub send_message : Message → Output → Output
unfolding resume_message
send_message m o =
    resume_message (record o { cur_out_message = some m; out_state = sending_headers })

abbrev pub is_idle : OutputState → Bool
is_idle idle = true
is_idle _ = false

-- A message is taken from the queue before it is known if it can be sent.
unfoldable pub send_queue : List Message → Output → Output
unfolding send_message
send_queue [] o = record o { outgoing = [] }
send_queue (m ∷ ms) o =
    let next = send_queue ms (send_message m o) in
    if is_ready o.connection.state && is_idle o.out_state then next else record o { outgoing = ms }

unfoldable pub process_queue : Output → Output
unfolding send_queue resume_message
process_queue o =
    let o1 = if is_idle o.out_state then o else resume_message o in send_queue o1.outgoing o1

-- Without a delay of the transmission.
unfoldable pub queue_message : Message → Output → Output
unfolding process_queue append channel_resolve
queue_message m o =
    let o1 = record o { outgoing = append o.outgoing m } in
    elim o.connection.state [
      | init ↦ record o1 { connection = channel_resolve o1.connection }
      | ready ↦ process_queue o1
      | _ ↦ o1
    ]

unfoldable pub become_ready : Output → Output
unfolding process_queue set_ready
become_ready o = process_queue (record o { connection = set_ready o.connection })

-- The socket can be written to.
unfoldable pub on_writable : Output → Output
unfolding process_queue
on_writable o = if is_ready o.connection.state then process_queue o else o
