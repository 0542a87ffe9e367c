-- ===== src/Tests/Bodies.antt =====
-- Multipart bodies of two parts and of one, and an exchange in small pieces.
use belle_sip.Prelude.{ℕ, zero, suc, ◌≡◌, ◌-◌, min, List, [], ◌∷◌, length, arith}
use belle_sip.Text.Noescapes.{codes}
use belle_sip.Bodies.Memory.{stop, buffer_overflow, new_from_buffer, begin_transfer}
use belle_sip.Bodies.Multipart.{
  separator, ending, multipart_new, multipart_begin, multipart_send_chunk, transfer,
}
use belle_sip.Bodies.Whole.{Part, build, format, AtLeast, HasGiven, multipart_sent}
use belle_sip.Bodies.Again.{empty_content, multipart_again, empty_part}
use belle_sip.Bodies.Exchange.{pieces, receive, memory_roundtrip}

abbrev plain : Part
plain = record { headers = []; content = codes "ab" }

abbrev with_header : Part
with_header = record { headers = codes "A: b" ∷ []; content = codes "c" }

abbrev times : ℕ → ℕ → List ℕ
times zero n = []
times (suc k) n = n ∷ times k n

abbrev sizes : List ℕ
sizes = times 200 200

times-AtLeast : (k n : ℕ) → AtLeast n (times k n)
times-AtLeast zero n = tt
times-AtLeast (suc k) n = (omega arith, times-AtLeast k n)

abbrev two_parts : List Part
two_parts = plain ∷ with_header ∷ []

multipart_sent_example :
    HasGiven (format two_parts) (transfer sizes (multipart_begin (build multipart_new two_parts)))
    × ((multipart_begin (build multipart_new two_parts)).expected_size ≡ length (format two_parts))
unfolding separator ending
multipart_sent_example =
    multipart_sent 200 plain (with_header ∷ []) sizes
      ((omega arith, omega arith), ((omega arith, omega arith), tt)) (omega arith)
      (times-AtLeast 200 200) (omega arith)

multipart_again_example :
    let first = transfer sizes (multipart_begin (build multipart_new two_parts)) in
    let second = transfer (300 ∷ []) (multipart_begin first.body) in
    (first.given ≡ format two_parts) × (second.given ≡ ending) × (second.status ≡ stop)
unfolding separator ending
multipart_again_example =
    multipart_again 200 plain (with_header ∷ []) sizes 300 []
      ((omega arith, omega arith), ((omega arith, omega arith), tt)) (omega arith)
      (times-AtLeast 200 200) (omega arith)

empty_part_example :
    let c =
      multipart_send_chunk 500
        (multipart_begin (build multipart_new (empty_content (codes "A: b" ∷ []) ∷ []))) in
    (c.status ≡ buffer_overflow)
    × (c.written ≡ [])
    × (c.size ≡ min 500 (length (format (empty_content (codes "A: b" ∷ []) ∷ []))) - length ending)
unfolding separator ending
empty_part_example = empty_part (codes "A: b" ∷ []) 500 (omega arith) (omega arith)

memory_roundtrip_example :
    let taken =
      receive
        (pieces (2 ∷ 1 ∷ 9 ∷ 1 ∷ []) (begin_transfer (new_from_buffer (codes "abcd"))))
        (begin_transfer (new_from_buffer [])) in
    (taken.buffer ≡ codes "abcd") × (taken.transfered_size ≡ 4)
memory_roundtrip_example =
    memory_roundtrip (codes "abcd") (2 ∷ 1 ∷ 9 ∷ 1 ∷ []) (omega arith) (omega arith)
      (omega arith, (omega arith, (omega arith, (omega arith, tt)))) (omega arith)
