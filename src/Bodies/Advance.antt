-- ===== src/Bodies/Advance.antt =====
-- Each piece that a multipart body of src/bodyhandler.c is asked for brings its transfer forward.
use belle_sip.Prelude.{
  drop-drop, ℕ, ◌+◌, ◌-◌, ◌<◌, ◌≤◌, ◌≡◌, ◌∙◌, refl, sym, ap, ◌⊎◌, inl, inr, min, false, ◌==◌, ltb,
  List, [], ◌∷◌, ◌++◌, length, length-append, take, drop, take-drop, length-drop, if◌then◌else◌,
  Bool-cases, arith, String,
}
use mathlib.Core.List.{append_assoc}
use mathlib.Core.Path.{subst}
use belle_sip.Bodies.Memory.{
  word, MemoryBody, send_chunk, IsUnderWay, send_chunk_some, send_chunk_all,
}
use belle_sip.Bodies.Multipart.{
  separator, header_text, ending, MultipartBody, preamble, proceed, multipart_chunk_send,
  multipart_send_chunk,
}
use belle_sip.Bodies.Pieces.{
  part_text, remaining, AllUnderWay, Fits, limit_lem, chunk_send_lem, ended, outcome_continue,
  outcome_stop, Going, Continues, Finishes,
}

-- The facts of a going transfer and of the size `n` that is asked for.
record IsReady (b n : ℕ) (m : MultipartBody) (p : MemoryBody) (ps : List MemoryBody) : Type 0 where
  size_is : m.expected_size ≡ m.transfered_size + length (remaining (p ∷ ps))
  no_overflow : m.expected_size < word
  under_way : IsUnderWay p
  behind_under_way : AllUnderWay ps
  fits : length (preamble p) + length ending + 1 ≤ b
  behind_fits : Fits b ps
  large : b ≤ n

pub ending_remains : (ps : List MemoryBody) → length ending ≤ length (remaining ps)
ending_remains [] = omega arith
ending_remains (p ∷ ps) =
    omega (arith, length-append (part_text p) (remaining ps), ending_remains ps)

pub ending_positive : 0 < length ending
unfolding ending
ending_positive = omega arith

regroup : (a b c d : String) → (a ++ (b ++ c)) ++ d ≡ (a ++ b) ++ (c ++ d)
regroup a b c d = simp append_assoc refl

-- The bytes that are asked of a part.
abbrev asked : ℕ → MemoryBody → List MemoryBody → ℕ
asked n p ps = min n (length (remaining (p ∷ ps))) - length ending - length (preamble p)

module _ (b n : ℕ) (m : MultipartBody) (p : MemoryBody) (ps : List MemoryBody)
    (g : IsReady b n m p ps) where
  abbrev at : MultipartBody
  at = record m { parts = p ∷ ps }

  abbrev left : ℕ
  left = length p.buffer - p.transfered_size

  sizes :
      (length (remaining (p ∷ ps)) ≡ length (preamble p) + left + length (remaining ps))
      × (0 < left)
  sizes = (
    omega (
      arith,
      length-append (part_text p) (remaining ps),
      length-append (preamble p) (drop p.transfered_size p.buffer),
      length-drop p.transfered_size p.buffer,
    ),
    omega (arith, g.under_way.unfinished),
  )

  run :
      multipart_send_chunk n at
      ≡ ended at (proceed (preamble p) (send_chunk (asked n p ps) p) ps at)
  unfolding multipart_send_chunk
  run =
      let k = min n (length (remaining (p ∷ ps))) in
      let l =
        limit_lem m.expected_size m.transfered_size n (length (remaining (p ∷ ps))) g.size_is
          (omega (arith, sizes.0, sizes.1)) g.no_overflow in
      let enough : length (preamble p) + length ending + 1 ≤ k =
        omega (arith, g.fits, g.large, sizes.0, sizes.1, ending_remains ps) in
      ap (λ x. ended at (multipart_chunk_send x at)) l
      ∙ ap (ended at) (chunk_send_lem k p ps m enough (omega (arith, g.size_is, g.no_overflow)))

  -- The part has more bytes than are asked for.
  piece_within : asked n p ps < left → Continues b (remaining (p ∷ ps)) (multipart_send_chunk n at)
  unfolding proceed
  piece_within h =
      let q = asked n p ps in
      let rest_of = drop p.transfered_size p.buffer in
      let p2 = record p { transfered_size = p.transfered_size + q } in
      let c = ended at (proceed (preamble p) (send_chunk q p) ps at) in
      let e =
        ap (λ x. ended at (proceed (preamble p) x ps at)) (send_chunk_some q p g.under_way h) in
      let size : length (drop q rest_of ++ remaining ps) ≡ (left - q) + length (remaining ps) =
        omega (
          arith,
          length-append (drop q rest_of) (remaining ps),
          length-drop q rest_of,
          length-drop p.transfered_size p.buffer,
        ) in
      let positive : 0 < q = omega (arith, g.fits, g.large, sizes.0, sizes.1, ending_remains ps) in
      let started : (p.transfered_size + q == 0) ≡ false = ground arith in
      let no_preamble : preamble p2 ≡ [] =
        ap (λ y. if y then separator ++ header_text p.header else []) started in
      subst (Continues b (remaining (p ∷ ps))) (sym (run ∙ e)) (record {
        status_is =
            outcome_continue m.expected_size (m.transfered_size + (q + length (preamble p)))
              (omega (arith, g.size_is, sizes.0, h, ending_remains ps));
        rest = drop q rest_of ++ remaining ps;
        going = record {
          part = p2;
          parts_behind = ps;
          parts_are = refl;
          rest_is =
              ap (λ y. y ++ remaining ps)
                (drop-drop p.transfered_size q (p.transfered_size + q) p.buffer refl)
              ∙ ap (λ y. (y ++ drop (p.transfered_size + q) p.buffer) ++ remaining ps)
                  (sym no_preamble);
          size_is = omega (arith, g.size_is, sizes.0, size, h);
          no_overflow = g.no_overflow;
          under_way = (
            record {
              size_is = g.under_way.size_is;
              unfinished = omega (arith, h);
              no_overflow = g.under_way.no_overflow;
            },
            g.behind_under_way,
          );
          fits = (omega (arith, ap length no_preamble, g.fits), g.behind_fits);
        };
        joined =
            ap (λ y. (preamble p ++ y) ++ remaining ps) (sym (take-drop q rest_of))
            ∙ regroup (preamble p) (take q rest_of) (drop q rest_of) (remaining ps);
        some_written = omega (arith, sizes.0, size, positive, h);
      })

-- The last part is finished, and the end follows it.
piece_last :
    (b n : ℕ) (m : MultipartBody) (p : MemoryBody) (g : IsReady b n m p [])
    → length p.buffer - p.transfered_size ≤ asked n p []
    → Finishes (remaining (p ∷ [])) (multipart_send_chunk n (record m { parts = p ∷ [] }))
unfolding proceed
piece_last b n m p g h =
    let m1 = record m { parts = p ∷ [] } in
    let e =
      ap (λ x. ended m1 (proceed (preamble p) x [] m1))
        (send_chunk_all (asked n p []) p g.under_way h) in
    subst (Finishes (remaining (p ∷ []))) (sym (run b n m p [] g ∙ e)) (record {
      status_is = outcome_stop m.expected_size _;
      all_written = sym (append_assoc (preamble p) (drop p.transfered_size p.buffer) ending);
      spent = record {
        last = record p { transfered_size = length p.buffer };
        last_is = refl;
        last_size = g.under_way.size_is;
        last_given = sym g.under_way.size_is;
        last_bounded = omega (arith, g.under_way.size_is, g.under_way.no_overflow);
        last_positive = omega (arith, g.under_way.size_is, g.under_way.unfinished);
      };
    })

-- A part is finished and another follows it.
piece_next :
    (b n : ℕ) (m : MultipartBody) (p q : MemoryBody) (qs : List MemoryBody)
    (g : IsReady b n m p (q ∷ qs))
    → length p.buffer - p.transfered_size ≤ asked n p (q ∷ qs)
    → Continues b
        (remaining (p ∷ q ∷ qs))
        (multipart_send_chunk n (record m { parts = p ∷ q ∷ qs }))
unfolding proceed
piece_next b n m p q qs g h =
    let m1 = record m { parts = p ∷ q ∷ qs } in
    let left = length p.buffer - p.transfered_size in
    let e =
      ap (λ x. ended m1 (proceed (preamble p) x (q ∷ qs) m1))
        (send_chunk_all (asked n p (q ∷ qs)) p g.under_way h) in
    let s = sizes b n m p (q ∷ qs) g in
    let some_left = ending_remains (q ∷ qs) in
    let positive : 0 < length ending = ending_positive in
    subst (Continues b (remaining (p ∷ q ∷ qs))) (sym (run b n m p (q ∷ qs) g ∙ e)) (record {
      status_is =
          outcome_continue m.expected_size (m.transfered_size + (left + length (preamble p)))
            (omega (arith, g.size_is, s.0, some_left, positive));
      rest = remaining (q ∷ qs);
      going = record {
        part = q;
        parts_behind = qs;
        parts_are = refl;
        rest_is = refl;
        size_is = omega (arith, g.size_is, s.0);
        no_overflow = g.no_overflow;
        under_way = g.behind_under_way;
        fits = g.behind_fits;
      };
      joined = refl;
      some_written = omega (arith, s.0, s.1);
    })

abbrev pub Advances : ℕ → ℕ → MultipartBody → String → Type 0
Advances b n m r = Continues b r (multipart_send_chunk n m) ⊎ Finishes r (multipart_send_chunk n m)

piece_ready :
    (b n : ℕ) (m : MultipartBody) (p : MemoryBody) (ps : List MemoryBody)
    → IsReady b n m p ps
    → Advances b n (record m { parts = p ∷ ps }) (remaining (p ∷ ps))
piece_ready b n m p [] g =
    elim (Bool-cases (ltb (asked n p []) (length p.buffer - p.transfered_size))) [
      | inl t ↦ inl (piece_within b n m p [] g (ground (arith, t)))
      | inr t ↦ inr (piece_last b n m p g (ground (arith, t)))
    ]
piece_ready b n m p (q ∷ qs) g =
    elim (Bool-cases (ltb (asked n p (q ∷ qs)) (length p.buffer - p.transfered_size))) [
      | inl t ↦ inl (piece_within b n m p (q ∷ qs) g (ground (arith, t)))
      | inr t ↦ inl (piece_next b n m p q qs g (ground (arith, t)))
    ]

-- Each piece of at least `b` bytes goes on, or is the last.
pub piece : (b n : ℕ) (m : MultipartBody) (r : String) → Going b m r → b ≤ n → Advances b n m r
piece b n m r g l =
    let now = piece_ready b n m g.part g.parts_behind (record {
      size_is = g.size_is ∙ ap (λ x. m.transfered_size + length x) g.rest_is;
      no_overflow = g.no_overflow;
      under_way = g.under_way.0;
      behind_under_way = g.under_way.1;
      fits = g.fits.0;
      behind_fits = g.fits.1;
      large = l;
    }) in
    subst (λ x. Advances b n x r) (ap (λ ps. record m { parts = ps }) (sym g.parts_are))
      (subst (Advances b n (record m { parts = g.part ∷ g.parts_behind })) (sym g.rest_is) now)
