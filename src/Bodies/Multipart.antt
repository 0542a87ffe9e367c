-- ===== src/Bodies/Multipart.antt =====
-- The multipart body handler of src/bodyhandler.c. Its parts are memory body handlers.
use belle_sip.Prelude.{
  ℕ, ◌+◌, ◌==◌, ◌&&◌, ltb, Option, none, some, List, [], ◌∷◌, ◌++◌, length, if◌then◌else◌, String,
}
use belle_sip.Text.Noescapes.{codes}
use belle_sip.Lists.Values.{append}
use belle_sip.Bodies.Memory.{
  Status, stop, continue, buffer_overflow, crashed, minus, MemoryBody, Chunk, limit, outcome,
  send_chunk,
}

-- BELLESIP_MULTIPART_BOUNDARY
abbrev pub boundary : String
boundary = codes "---------------------------14737809831466499882746641449"

abbrev pub crlf : String
crlf = 13 ∷ 10 ∷ []

-- MULTIPART_SEPARATOR
unfoldable pub separator : String
separator = codes "--" ++ boundary ++ crlf

-- MULTIPART_END
unfoldable pub ending : String
ending = crlf ++ codes "--" ++ boundary ++ codes "--" ++ crlf

-- `parts` are the part that the pointer is at and those behind it, none for a null pointer.
pub record MultipartBody : Type 0 where
  pub expected_size : ℕ
  pub transfered_size : ℕ
  pub parts : List MemoryBody

abbrev pub header_text : Option String → String
header_text none = []
header_text (some h) = h

-- Header lines, and an empty line behind them.
abbrev pub header_lines : List String → String
header_lines [] = crlf
header_lines (h ∷ hs) = h ++ crlf ++ header_lines hs

-- headerStringBuffer is printed from the headers of a part if there are any, into a block that grows
-- until they fit.
unfoldable pub print_headers : List String → MemoryBody → MemoryBody
print_headers [] p = p
print_headers (h ∷ hs) p = record p { header = some (header_lines (h ∷ hs)) }

-- belle_sip_multipart_body_handler_add_part, with the headers as they are printed
unfoldable pub add_part : List String → MemoryBody → MultipartBody → MultipartBody
unfolding print_headers append
add_part hs part m =
    let p = print_headers hs part in
    record m {
      expected_size =
          m.expected_size
          + part.expected_size
          + length separator
          + (elim hs [ [] ↦ 0 | h ∷ rest ↦ length (header_text p.header) ]);
      parts = append m.parts p;
    }

-- belle_sip_multipart_body_handler_new without a first part
unfoldable pub multipart_new : MultipartBody
multipart_new = record { expected_size = length ending; transfered_size = 0; parts = [] }

unfoldable pub multipart_begin : MultipartBody → MultipartBody
multipart_begin m = record m { transfered_size = 0 }

-- The function of the class makes the copy of the list from the new object, whose list is empty, and not
-- from the original.
unfoldable pub multipart_clone : MultipartBody → MultipartBody
multipart_clone orig = record {
  expected_size = orig.expected_size;
  transfered_size = orig.transfered_size;
  parts = [];
}

-- What stands in front of the data of a part.
abbrev pub preamble : MemoryBody → String
preamble p = if p.transfered_size == 0 then separator ++ header_text p.header else []

-- What comes behind a piece of a part: the rest of the part, the next part, or the end.
unfoldable pub proceed :
    String → Chunk MemoryBody → List MemoryBody → MultipartBody → Chunk MultipartBody
proceed head c rest m = elim c.status [
  | continue ↦ record {
    body = record m { parts = c.body ∷ rest };
    written = head ++ c.written;
    size = c.size + length head;
    status = continue;
  }
  | _ ↦ elim rest [
    | [] ↦ record {
      body = record m { parts = c.body ∷ [] };
      written = head ++ (c.written ++ ending);
      size = c.size + length head + length ending;
      status = stop;
    }
    | q ∷ qs ↦ record {
      body = record m { parts = q ∷ qs };
      written = head ++ c.written;
      size = c.size + length head;
      status = continue;
    }
  ]
]

-- belle_sip_multipart_body_handler_send_chunk
unfoldable pub multipart_chunk_send : ℕ → MultipartBody → Chunk MultipartBody
unfolding minus send_chunk proceed
multipart_chunk_send n m = elim m.parts [
  | [] ↦ record { body = m; written = []; size = n; status = crashed }
  | p ∷ rest ↦
      let room = minus n (length ending) in
      let head = preamble p in
      if p.transfered_size == 0 && ltb room (length head + 1)
      then record { body = m; written = []; size = room; status = buffer_overflow }
      else proceed head (send_chunk (minus room (length head)) p) rest m
]

-- belle_sip_body_handler_send_chunk on a multipart body handler
unfoldable pub multipart_send_chunk : ℕ → MultipartBody → Chunk MultipartBody
unfolding limit outcome multipart_chunk_send
multipart_send_chunk n m =
    let c = multipart_chunk_send (limit m.expected_size m.transfered_size n) m in
    let transfered = m.transfered_size + c.size in
    record c {
      body = let b = c.body in record b { transfered_size = transfered };
      status = elim c.status [ crashed ↦ crashed | s ↦ outcome m.expected_size transfered s ];
    }

-- What is left of a transfer, and what it has given.
pub record Transfer : Type 0 where
  pub body : MultipartBody
  pub given : String
  pub status : Status

-- The loop over the pieces of a body, with the sizes that are asked for.
unfoldable pub transfer : List ℕ → MultipartBody → Transfer
unfolding multipart_send_chunk
transfer [] m = record { body = m; given = []; status = continue }
transfer (n ∷ ns) m =
    let c = multipart_send_chunk n m in
    let rest = transfer ns c.body in
    elim c.status [
      | continue ↦ record rest { given = c.written ++ rest.given }
      | s ↦ record { body = c.body; given = c.written; status = s }
    ]
