-- ===== src/Bodies/Again.antt =====
-- A second transfer of a multipart body of src/bodyhandler.c, and bodies that cannot be transferred.
use belle_sip.Prelude.{
  ℕ, ◌+◌, ◌-◌, ◌<◌, ◌≤◌, ◌≡◌, ◌∙◌, refl, ap, min, true, false, ◌==◌, ltb, List, [], ◌∷◌, ◌++◌,
  length, length-append, arith, String,
}
use belle_sip.Bodies.Memory.{
  stop, buffer_overflow, crashed, word, minus, minus_lem, MemoryBody, limit, outcome,
  memory_chunk_send, send_chunk,
}
use belle_sip.Bodies.Multipart.{
  separator, ending, MultipartBody, header_text, proceed, multipart_new, multipart_begin,
  multipart_clone, multipart_chunk_send, multipart_send_chunk, transfer,
}
use belle_sip.Bodies.Advance.{ending_positive}
use belle_sip.Bodies.Pieces.{IsSpent, ended, outcome_stop, limit_lem}
use belle_sip.Bodies.Whole.{
  headers_of, header_of, header_of-text, handler_of, build-IsBuilt, Part, build, format, Sendable,
  AtLeast, multipart_sent,
}

send_chunk_spent :
    (n : ℕ) (p : MemoryBody)
    → p.transfered_size ≡ p.expected_size
    → 0 < p.expected_size
    → p.expected_size < word
    → send_chunk n p ≡ record { body = p; written = []; size = 0; status = stop }
unfolding send_chunk limit outcome memory_chunk_send
send_chunk_spent n p e h w =
    let known : (p.expected_size == 0) ≡ false = ground arith in
    let none_left : minus p.expected_size p.transfered_size ≡ 0 =
      minus_lem p.expected_size p.transfered_size (omega (arith, e)) w ∙ omega (arith, e) in
    let m : min n 0 ≡ 0 = omega arith in
    let m2 : min 0 0 ≡ 0 = omega arith in
    let zero_more : p.transfered_size + 0 ≡ p.transfered_size = omega arith in
    let all : (p.transfered_size == p.expected_size) ≡ true = ground (arith, e) in
    rw (known, none_left, m, m2, zero_more, all) refl

chunk_send_spent :
    (k : ℕ) (p : MemoryBody) (m : MultipartBody)
    → p.transfered_size ≡ p.expected_size
    → 0 < p.expected_size
    → p.expected_size < word
    → multipart_chunk_send k (record m { parts = p ∷ [] }) ≡ record {
      body = record m { parts = p ∷ [] };
      written = ending;
      size = length ending;
      status = stop;
    }
unfolding multipart_chunk_send proceed
chunk_send_spent k p m e h w =
    let z : 0 + length ending ≡ length ending = omega arith in
    let given : (p.transfered_size == 0) ≡ false = ground (arith, e, h) in
    rw
      (given, send_chunk_spent (minus (minus k (length ending)) 0) p e h w, multipart_chunk_send, z)
      refl

transfer_stop :
    (n : ℕ) (ks : List ℕ) (m : MultipartBody)
    → (multipart_send_chunk n m).status ≡ stop
    → ((transfer (n ∷ ks) m).given ≡ (multipart_send_chunk n m).written)
      × ((transfer (n ∷ ks) m).status ≡ stop)
unfolding transfer
transfer_stop n ks m e = rw (e, transfer) (refl, refl)

-- A body that has given all gives only the end when it is transferred again.
transfer_spent :
    (n : ℕ) (ks : List ℕ) (m : MultipartBody)
    → IsSpent m
    → ((transfer (n ∷ ks) (multipart_begin m)).given ≡ ending)
      × ((transfer (n ∷ ks) (multipart_begin m)).status ≡ stop)
unfolding transfer multipart_send_chunk multipart_begin
transfer_spent n ks m s =
    let m1 = record m { transfered_size = 0; parts = s.last ∷ [] } in
    let start : multipart_begin m ≡ m1 =
      ap (λ ps. record m { transfered_size = 0; parts = ps }) s.last_is in
    let k = limit m.expected_size 0 n in
    let e =
      ap (ended m1) (chunk_send_spent k s.last m1 s.last_given s.last_positive s.last_bounded) in
    let run : multipart_send_chunk n m1 ≡ record {
      body = record m1 { transfered_size = 0 + length ending };
      written = ending;
      size = length ending;
      status = stop;
    } =
      e
      ∙ ap
          (λ v. record {
            body = record m1 { transfered_size = 0 + length ending };
            written = ending;
            size = length ending;
            status = v;
          })
          (outcome_stop m.expected_size (0 + length ending)) in
    let one = transfer_stop n ks m1 (ap (λ c. c.status) run) in
    (
      ap (λ x. (transfer (n ∷ ks) x).given) start ∙ one.0 ∙ ap (λ c. c.written) run,
      ap (λ x. (transfer (n ∷ ks) x).status) start ∙ one.1,
    )

-- When a multipart body that was transferred whole is transferred again, as a message is that is sent
-- a second time, then only the end is given, whatever sizes are asked for.
pub multipart_again :
    (b : ℕ) (x : Part) (xs : List Part) (ns : List ℕ) (n : ℕ) (ks : List ℕ)
    → Sendable b (x ∷ xs)
    → length (format (x ∷ xs)) < word
    → AtLeast b ns
    → length (format (x ∷ xs)) ≤ length ns
    → let first = transfer ns (multipart_begin (build multipart_new (x ∷ xs))) in
      let second = transfer (n ∷ ks) (multipart_begin first.body) in
      (first.given ≡ format (x ∷ xs)) × (second.given ≡ ending) × (second.status ≡ stop)
multipart_again b x xs ns n ks s h a l =
    let g = (multipart_sent b x xs ns s h a l).0 in
    let (e, f) =
      transfer_spent n ks (transfer ns (multipart_begin (build multipart_new (x ∷ xs)))).body
        g.spent in
    (g.given_is, e, f)

-- A copy of a multipart body has no parts: the first piece of it uses a null pointer.
pub clone_crashes :
    (m : MultipartBody) (n : ℕ) (ks : List ℕ)
    → (transfer (n ∷ ks) (multipart_begin (multipart_clone m))).status ≡ crashed
unfolding transfer multipart_send_chunk multipart_chunk_send multipart_begin multipart_clone
clone_crashes m n ks = refl

abbrev pub empty_content : List String → Part
empty_content hs = record { headers = hs; content = [] }

-- The multipart body with an empty part.
abbrev alone : List String → MultipartBody
alone hs = record {
  expected_size = length (format (empty_content hs ∷ []));
  transfered_size = 0;
  parts = handler_of (empty_content hs) ∷ [];
}

build-alone :
    (hs : List String) → multipart_begin (build multipart_new (empty_content hs ∷ [])) ≡ alone hs
unfolding multipart_begin multipart_new
build-alone hs =
    let i = build-IsBuilt multipart_new (empty_content hs ∷ []) in
    let built = build multipart_new (empty_content hs ∷ []) in
    let size : built.expected_size ≡ length (format (empty_content hs ∷ [])) =
      omega (arith, i.size_is) in
    ap (λ e. record { expected_size = e; transfered_size = 0; parts = built.parts }) size
    ∙ ap
        (λ ps. record {
          expected_size = length (format (empty_content hs ∷ []));
          transfered_size = 0;
          parts = ps;
        })
        i.parts_are

outcome_overflow :
    (expected transfered : ℕ)
    → transfered < expected
    → outcome expected transfered buffer_overflow ≡ buffer_overflow
unfolding outcome
outcome_overflow expected transfered h =
    let a : (expected == 0) ≡ false = ground arith in
    let b : (transfered == expected) ≡ false = ground arith in rw (a, b) refl

chunk_send_alone :
    (k : ℕ) (hs : List String)
    → length ending ≤ k
    → k ≤ length (format (empty_content hs ∷ []))
    → k < word
    → multipart_chunk_send k (alone hs)
      ≡ record { body = alone hs; written = []; size = k - length ending; status = buffer_overflow }
unfolding multipart_chunk_send
chunk_send_alone k hs e h w =
    let a : minus k (length ending) ≡ k - length ending = minus_lem k (length ending) e w in
    let total = length-append ((separator ++ headers_of hs) ++ []) ending in
    let t = ap (λ x. length (separator ++ x)) (header_of-text hs) in
    let c : ltb (k - length ending) (length (separator ++ header_text (header_of hs)) + 1) ≡ true =
      ground (arith, total, t, length-append (separator ++ headers_of hs) [], h) in
    rw (a, c, multipart_chunk_send) refl

-- A multipart body whose only part is empty: the first piece that it is asked for, of at least the
-- length of the end, is refused as too small, nothing is written, and the size that is given back
-- counts the bytes of the separator and of the headers, if so many were asked for.
pub empty_part :
    (hs : List String) (n : ℕ)
    → length ending ≤ n
    → length (format (empty_content hs ∷ [])) < word
    → let c =
        multipart_send_chunk n (multipart_begin (build multipart_new (empty_content hs ∷ []))) in
      (c.status ≡ buffer_overflow)
      × (c.written ≡ [])
      × (c.size ≡ min n (length (format (empty_content hs ∷ []))) - length ending)
unfolding multipart_send_chunk
empty_part hs n h w =
    let total = length (format (empty_content hs ∷ [])) in
    let long : length ending ≤ total =
      omega (arith, length-append ((separator ++ headers_of hs) ++ []) ending) in
    let l = limit_lem total 0 n total (omega arith) (omega (arith, long, ending_positive)) w in
    let k = min n total in
    let e = chunk_send_alone k hs (omega (arith, long)) (omega arith) (omega arith) in
    let run =
      ap (multipart_send_chunk n) (build-alone hs)
      ∙ ap (λ x. ended (alone hs) (multipart_chunk_send x (alone hs))) l
      ∙ ap (ended (alone hs)) e in
    (
      ap (λ c. c.status) run
          ∙ outcome_overflow total (0 + (k - length ending)) (omega (arith, ending_positive, long)),
      ap (λ c. c.written) run,
      ap (λ c. c.size) run,
    )
