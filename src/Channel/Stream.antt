-- ===== src/Channel/Stream.antt =====
-- belle_sip_channel_input_stream_t, and the functions of src/channel.c that collect the body of a
-- message whose headers have been parsed. `pending` are the bytes between read_ptr and write_ptr, and
-- `used` is how far read_ptr is from the start of the buffer. The listeners set no body handler, so
-- that a body is what the memory handler collects. Lengths are below 2 ^ 31. The public address that
-- a channel learns from a response is left out.
use belle_sip.Prelude.{
  ℕ, ◌-◌, min, Bool, true, false, ◌==◌, ◌&&◌, ◌||◌, not, Option, none, some, List, [], ◌∷◌, ◌++◌,
  length, take, drop, ltb, leb, if◌then◌else◌, String,
}

pub data StreamState : Type 0 where
  waiting_message_start message_acquisition body_acquisition : StreamState

-- What the headers of a message say: if it is a SIP message, its Content-Length, and for HTTP if there
-- is a Content-Type and if Transfer-Encoding has "chunked".
pub record Message : Type 0 where
  pub is_sip : Bool
  pub length_header : Option ℕ
  pub has_type : Bool
  pub is_chunked : Bool

-- A length of -1 before check_body is 0 here; `chunk_size` of -1 is none. `body` is what the body
-- handler has got, and `incoming` the messages that are ready, with their bodies.
pub record Stream : Type 0 where
  pub state : StreamState
  pub pending : String
  pub used : ℕ
  pub msg : Option Message
  pub chunked_mode : Bool
  pub content_length : ℕ
  pub chunk_size : Option ℕ
  pub chunk_read_size : ℕ
  pub body : String
  pub incoming : List (Option Message × String)

abbrev pub rewind : Stream → Stream
rewind s = record s { used = 0 }

abbrev pub reset : Stream → Stream
reset s = record (rewind s) {
  state = waiting_message_start;
  msg = none;
  chunked_mode = false;
  content_length = 0;
}

abbrev pub message_ready : Stream → Stream
message_ready s = reset (record s { incoming = s.incoming ++ (s.msg, s.body) ∷ [] })

abbrev pub feed_body : ℕ → Stream → Stream
feed_body n s = rewind (record s { body = s.body ++ take n s.pending; pending = drop n s.pending })

abbrev or_zero : Option ℕ → ℕ
or_zero none = 0
or_zero (some n) = n

abbrev pub expects_body : Message → Bool
expects_body m = if m.is_sip then ltb 0 (or_zero m.length_header) else m.has_type

-- The message `m` has come; a body handler is given to one that expects a body.
unfoldable pub check_body : Message → Stream → Stream
check_body m s =
    let s1 = record s { content_length = or_zero m.length_header } in
    let s2 =
      if not m.is_sip && (m.has_type && m.is_chunked)
      then record s1 {
        chunked_mode = true;
        content_length = 0;
        chunk_size = none;
        chunk_read_size = 0;
      }
      else s1 in
    record s2 { body = [] }

-- The message that was parsed, whose body is expected.
abbrev pub begin_body : Message → Stream → Stream
begin_body m s = record (check_body m (record s { msg = some m })) { state = body_acquisition }

-- How many bytes of the body are taken; the difference is one of size_t.
abbrev pub body_part : Stream → ℕ
body_part s =
    if ltb s.content_length (length s.body)
    then length s.pending
    else min (s.content_length - length s.body) (length s.pending)

-- What is pending is taken, but nothing before the first byte has come.
unfoldable pub take_part : Stream → Stream
take_part s = if length s.body == 0 && length s.pending == 0 then s else feed_body (body_part s) s

-- The stream, and if the result is BELLE_SIP_CONTINUE.
unfoldable pub acquire_body_simple : Bool → Stream → Stream × Bool
unfolding take_part
acquire_body_simple eos s =
    let s1 = take_part s in
    if eos || leb s1.content_length (length s1.body) then (message_ready s1, true) else (s1, false)

-- What is received stands behind the bytes that are pending.
abbrev pub receive : String → Stream → Stream
receive d s = record s { pending = s.pending ++ d }

-- Bytes come in pieces, and the body is acquired after each, until it is complete: the stream, if it
-- is, and the pieces that have not come yet.
unfoldable pub acquire_pieces : List String → Stream → (Stream × Bool) × List String
unfolding acquire_body_simple
acquire_pieces [] s = ((s, false), [])
acquire_pieces (d ∷ ds) s =
    let r = acquire_body_simple false (receive d s) in
    let rest = acquire_pieces ds r.0 in if r.1 then (r, ds) else rest
