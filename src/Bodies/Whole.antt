-- ===== src/Bodies/Whole.antt =====
-- Whole transfers of a multipart body of src/bodyhandler.c.
use belle_sip.Prelude.{
  ℕ, ◌+◌, ◌<◌, ◌≤◌, ◌≡◌, ◌∙◌, refl, sym, ap, inl, inr, Option, none, some, List, [], ◌∷◌, ◌++◌, map,
  length, length-append, arith, String,
}
use mathlib.Core.List.{append_assoc, append-nil}
use mathlib.Core.Path.{subst}
use belle_sip.Lists.Sorted.{append_lem}
use belle_sip.Bodies.Memory.{stop, word, MemoryBody, new_from_buffer}
use belle_sip.Bodies.Multipart.{
  separator, ending, MultipartBody, header_text, header_lines, print_headers, add_part,
  multipart_new, multipart_begin, multipart_send_chunk, Transfer, transfer,
}
use belle_sip.Bodies.Pieces.{remaining, AllUnderWay, Fits, Going, IsSpent}
use belle_sip.Bodies.Advance.{piece, ending_positive, ending_remains}

abbrev pub AtLeast : ℕ → List ℕ → Type 0
AtLeast b [] = Unit
AtLeast b (n ∷ ns) = (b ≤ n) × AtLeast b ns

-- A transfer that has ended and given `r`.
pub record HasGiven (r : String) (t : Transfer) : Type 0 where
  pub status_is : t.status ≡ stop
  pub given_is : t.given ≡ r
  pub spent : IsSpent t.body

transfer-HasGiven :
    (b : ℕ) (ns : List ℕ) (m : MultipartBody) (r : String)
    → Going b m r
    → AtLeast b ns
    → length r ≤ length ns
    → HasGiven r (transfer ns m)
unfolding transfer
transfer-HasGiven b [] m r g a h =
    absurd (
      omega (arith, ap length g.rest_is, ending_remains (g.part ∷ g.parts_behind), ending_positive))
transfer-HasGiven b (n ∷ ns) m r g (a, later) h = elim (piece b n m r g a) [
  | inl k ↦
      let rest =
        transfer-HasGiven b ns (multipart_send_chunk n m).body k.rest k.going later
          (omega (arith, k.some_written, h)) in
      rw (k.status_is, transfer)
        (record {
          status_is = rest.status_is;
          given_is = ap (λ x. (multipart_send_chunk n m).written ++ x) rest.given_is ∙ sym k.joined;
          spent = rest.spent;
        })
  | inr k ↦
      rw (k.status_is, transfer)
        (record { status_is = refl; given_is = k.all_written; spent = k.spent })
]

-- A part as it is added: its headers as they are printed, and what it holds.
pub record Part : Type 0 where
  pub headers : List String
  pub content : String

abbrev pub build : MultipartBody → List Part → MultipartBody
build m [] = m
build m (x ∷ xs) = build (add_part x.headers (new_from_buffer x.content) m) xs

abbrev pub headers_of : List String → String
headers_of [] = []
headers_of (h ∷ hs) = header_lines (h ∷ hs)

-- The body that the parts make.
abbrev pub format : List Part → String
format [] = ending
format (x ∷ xs) = ((separator ++ headers_of x.headers) ++ x.content) ++ format xs

-- Parts that are not empty and of which the separator, the headers and a byte fit `b` bytes with the
-- end behind them.
abbrev pub Sendable : ℕ → List Part → Type 0
Sendable b [] = Unit
Sendable b (x ∷ xs) =
    ((0 < length x.content) × (length (separator ++ headers_of x.headers) + length ending + 1 ≤ b))
    × Sendable b xs

abbrev pub header_of : List String → Option String
header_of [] = none
header_of (h ∷ hs) = some (header_lines (h ∷ hs))

-- The handler of a part.
abbrev pub handler_of : Part → MemoryBody
handler_of x = record {
  expected_size = length x.content;
  transfered_size = 0;
  buffer = x.content;
  header = header_of x.headers;
}

pub header_of-text : (hs : List String) → header_text (header_of hs) ≡ headers_of hs
header_of-text [] = refl
header_of-text (h ∷ hs) = refl

print_headers-handler_of :
    (hs : List String) (c : String)
    → print_headers hs (new_from_buffer c) ≡ handler_of (record { headers = hs; content = c })
unfolding print_headers new_from_buffer
print_headers-handler_of [] c = refl
print_headers-handler_of (h ∷ hs) c = refl

add_part_size :
    (hs : List String) (c : String) (m : MultipartBody)
    → (add_part hs (new_from_buffer c) m).expected_size
      ≡ m.expected_size + length ((separator ++ headers_of hs) ++ c)
unfolding add_part new_from_buffer print_headers
add_part_size [] c m = omega (arith, length-append (separator ++ []) c, length-append separator [])
add_part_size (h ∷ hs) c m = omega (
  arith,
  length-append (separator ++ header_lines (h ∷ hs)) c,
  length-append separator (header_lines (h ∷ hs)),
)

made_parts :
    (b : ℕ) (xs : List Part)
    → Sendable b xs
    → length (format xs) < word
    → (remaining (map handler_of xs) ≡ format xs)
      × AllUnderWay (map handler_of xs)
      × Fits b (map handler_of xs)
made_parts b [] s h = (refl, tt, tt)
made_parts b (x ∷ xs) ((p, f), s) h =
    let l = length-append ((separator ++ headers_of x.headers) ++ x.content) (format xs) in
    let k = length-append (separator ++ headers_of x.headers) x.content in
    let (r, u, fs) = made_parts b xs s (omega (arith, l, h)) in
    (
      ap (λ t. ((separator ++ t) ++ x.content) ++ remaining (map handler_of xs))
            (header_of-text x.headers)
          ∙ ap (λ t. ((separator ++ headers_of x.headers) ++ x.content) ++ t) r,
      (record { size_is = refl; unfinished = p; no_overflow = omega (arith, l, k, h) }, u),
      (
        subst (λ t. length (separator ++ t) + length ending + 1 ≤ b)
            (sym (header_of-text x.headers)) f,
        fs,
      ),
    )

-- What the parts `xs` have made of the body `m`.
pub record IsBuilt (m : MultipartBody) (xs : List Part) (n : MultipartBody) : Type 0 where
  pub parts_are : n.parts ≡ m.parts ++ map handler_of xs
  pub size_is : n.expected_size + length ending ≡ m.expected_size + length (format xs)

pub build-IsBuilt : (m : MultipartBody) (xs : List Part) → IsBuilt m xs (build m xs)
unfolding add_part
build-IsBuilt m [] = record { parts_are = sym (append-nil m.parts); size_is = refl }
build-IsBuilt m (x ∷ xs) =
    let i = build-IsBuilt (add_part x.headers (new_from_buffer x.content) m) xs in
    record {
      parts_are =
          i.parts_are
          ∙ ap (λ l. l ++ map handler_of xs)
              (append_lem m.parts (print_headers x.headers (new_from_buffer x.content)))
          ∙ ap (λ p. (m.parts ++ p ∷ []) ++ map handler_of xs)
              (print_headers-handler_of x.headers x.content)
          ∙ append_assoc m.parts (handler_of x ∷ []) (map handler_of xs);
      size_is = omega (
        arith,
        i.size_is,
        add_part_size x.headers x.content m,
        length-append ((separator ++ headers_of x.headers) ++ x.content) (format xs),
      );
    }

-- A multipart body of parts that are not empty, whose length fits size_t, asked for its pieces by
-- sizes that have room for the separator and the headers of any part, the end and a byte, and often
-- enough, gives the separator, the headers and the content of each part in order, and then the end;
-- it says stop with the last piece and not before, and its length is what was announced.
pub multipart_sent :
    (b : ℕ) (x : Part) (xs : List Part) (ns : List ℕ)
    → Sendable b (x ∷ xs)
    → length (format (x ∷ xs)) < word
    → AtLeast b ns
    → length (format (x ∷ xs)) ≤ length ns
    → let m = multipart_begin (build multipart_new (x ∷ xs)) in
      HasGiven (format (x ∷ xs)) (transfer ns m) × (m.expected_size ≡ length (format (x ∷ xs)))
unfolding multipart_begin multipart_new
multipart_sent b x xs ns s h a l =
    let (r, u, f) = made_parts b (x ∷ xs) s h in
    let i = build-IsBuilt multipart_new (x ∷ xs) in
    let size : (build multipart_new (x ∷ xs)).expected_size ≡ length (format (x ∷ xs)) =
      omega (arith, i.size_is) in
    (
      transfer-HasGiven b ns (multipart_begin (build multipart_new (x ∷ xs))) (format (x ∷ xs))
          (record {
            part = handler_of x;
            parts_behind = map handler_of xs;
            parts_are = i.parts_are;
            rest_is = sym r;
            size_is = omega (arith, size);
            no_overflow = omega (arith, size, h);
            under_way = u;
            fits = f;
          })
          a l,
      size,
    )
