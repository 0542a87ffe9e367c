-- ===== src/Tests/Channel.antt =====
-- Pieces of bodies, lives of channels and queues of messages.
use belle_sip.Prelude.{
  ℕ, ◌≡◌, refl, Bool, true, false, none, some, List, [], ◌∷◌, ◌++◌, String, arith, Reach, here,
  next,
}
use mathlib.Core.List.{Subset}
use belle_sip.Channel
use belle_sip.Channel.Connection.{
  ConnectionState, Connection, connecting, notify_timeout, ready, error, channel_set_state,
  channel_resolve, connect, prepare_continue, channel_res_done, run_task, set_ready,
}
use belle_sip.Channel.Life.{
  faults, attempts, Life, Step, is_up, prepare, resolved, task, connected, fail, new_channel,
}
use belle_sip.Channel.Attempts.{IsOrderly, attempts_in_order}
use belle_sip.Channel.Anytime.{tries_found, timeouts_skip}
use belle_sip.Channel.Output.{
  Reply, accept, would_block, idle, Output, done, room, process_queue, check_content_length,
}
use belle_sip.Channel.Queue.{sent_in_order}
use belle_sip.Channel.Blocking.{blocked_message}
use belle_sip.Text.Noescapes.{codes}
use belle_sip.Channel.Stream.{
  message_acquisition, Message, Stream, expects_body, begin_body, acquire_pieces,
}
use belle_sip.Channel.Body.{IsComplete, sip_body}

-- A body of five bytes that comes in three pieces, the last with a byte of what follows.
abbrev five : Message
five = record { is_sip = true; length_header = some 5; has_type = true; is_chunked = false }

abbrev quiet_stream : Stream
quiet_stream = record {
  state = message_acquisition;
  pending = [];
  used = 0;
  msg = none;
  chunked_mode = false;
  content_length = 0;
  chunk_size = none;
  chunk_read_size = 0;
  body = [];
  incoming = [];
}

abbrev pieces : List String
pieces = codes "ab" ∷ [] ∷ codes "cdeI" ∷ codes "N" ∷ []

sip_body_example :
    (expects_body five ≡ true)
    × IsComplete
        (begin_body five quiet_stream)
        (codes "abcde")
        (codes "IN")
        (acquire_pieces pieces (begin_body five quiet_stream))
sip_body_example =
    sip_body five quiet_stream pieces (codes "abcde") (codes "IN") refl refl (omega arith) refl refl

abbrev all_connect : ℕ → Bool
all_connect p = true

-- Two addresses are found; the first fails while it connects, the second gets ready.
abbrev prepared : Life
prepared = record {
  connection = prepare_continue all_connect new_channel.connection;
  asked = true;
  found = [];
}

abbrev found_two : Life
found_two = record {
  connection = channel_res_done all_connect (3 ∷ 5 ∷ []) prepared.connection;
  asked = false;
  found = 3 ∷ 5 ∷ [];
}

abbrev first_failed : Life
first_failed = record found_two { connection = channel_set_state error found_two.connection }

abbrev trying_second : Life
trying_second = record first_failed { connection = run_task all_connect first_failed.connection }

abbrev second_ready : Life
second_ready = record trying_second { connection = set_ready trying_second.connection }

life_history : Reach (Step all_connect is_up) new_channel second_ready
unfolding channel_set_state channel_resolve connect prepare_continue channel_res_done run_task
    set_ready
life_history =
    next
      (next
        (next (next (next here (prepare new_channel refl)) (resolved prepared (3 ∷ 5 ∷ []) refl))
          (fail found_two refl))
        (task first_failed))
      (connected trying_second refl)

attempts_in_order_example : IsOrderly second_ready
attempts_in_order_example = attempts_in_order all_connect second_ready life_history

-- An error reaches the channel again while it waits for its next attempt.
abbrev anywhere : ConnectionState → Bool
anywhere s = true

abbrev failed_twice : Life
failed_twice = record first_failed { connection = channel_set_state error first_failed.connection }

twice_history : Reach (Step all_connect anywhere) new_channel failed_twice
unfolding channel_set_state channel_resolve connect prepare_continue channel_res_done
twice_history =
    next
      (next (next (next here (prepare new_channel refl)) (resolved prepared (3 ∷ 5 ∷ []) refl))
        (fail found_two refl))
      (fail first_failed refl)

tries_found_example :
    (faults failed_twice.connection.acts ≡ false)
    × Subset (attempts failed_twice.connection.acts) failed_twice.found
tries_found_example = tries_found all_connect anywhere failed_twice twice_history

abbrev connecting_first : Connection
connecting_first = record { state = connecting; peers = 3 ∷ 5 ∷ 7 ∷ []; tasks = []; acts = [] }

abbrev timed_out_twice : Connection
timed_out_twice =
    run_task all_connect
      (run_task all_connect (notify_timeout true (notify_timeout true connecting_first).0).0)

timeouts_skip_example :
    (attempts timed_out_twice.acts ≡ 7 ∷ 7 ∷ []) × (timed_out_twice.peers ≡ 7 ∷ [])
timeouts_skip_example = timeouts_skip all_connect 3 5 7 [] [] refl

-- Messages with headers of three and two bytes.
abbrev small : Channel.Output.Message
small = record { content_length = none; body = codes "xy"; marshal = λ n. some (codes "HDR") }

abbrev bye_message : Channel.Output.Message
bye_message = record { content_length = none; body = []; marshal = λ n. some (codes "BY") }

abbrev sending : List Channel.Output.Message → List Reply → Output
sending ms rs = record {
  connection = record { state = ready; peers = 5 ∷ []; tasks = []; acts = [] };
  out_state = idle;
  cur_out_message = none;
  outgoing = ms;
  blocked = none;
  to_send = [];
  wants_write = false;
  wire = codes "W";
  replies = rs;
}

abbrev seven_replies : List Reply
seven_replies = accept 1 ∷ accept 9 ∷ accept 0 ∷ accept 0 ∷ accept 2 ∷ accept 3 ∷ accept 4 ∷ []

sent_in_order_example :
    let o = sending (small ∷ bye_message ∷ []) seven_replies in
    ((process_queue o).wire ≡ codes "WHDRxyBY")
    × ((process_queue o).outgoing ≡ [])
    × ((process_queue o).connection ≡ o.connection)
    × (process_queue o ≡ done (process_queue o))
unfolding done
sent_in_order_example =
    sent_in_order (sending (small ∷ bye_message ∷ []) seven_replies) refl refl
      (omega arith, (omega arith, tt)) tt (omega arith)

abbrev twelve_replies : List Reply
twelve_replies = seven_replies ++ accept 0 ∷ accept 0 ∷ accept 0 ∷ accept 0 ∷ accept 0 ∷ []

blocked_message_example :
    let o =
      sending (small ∷ bye_message ∷ bye_message ∷ []) (accept 1 ∷ would_block ∷ twelve_replies) in
    ((process_queue o).wire ≡ codes "WHD")
    × ((process_queue o).outgoing ≡ bye_message ∷ [])
    × ((process_queue (process_queue o)).wire ≡ codes "WHDRxyHDRxyBY")
    × ((process_queue (process_queue o)).outgoing ≡ [])
unfolding done room
blocked_message_example =
    blocked_message small bye_message (bye_message ∷ [])
      (sending (small ∷ bye_message ∷ bye_message ∷ []) (accept 1 ∷ would_block ∷ twelve_replies))
      (codes "HDR") 1 twelve_replies refl refl refl refl (omega arith) (omega arith)
      (omega arith, tt) refl (omega arith) tt (omega arith)
