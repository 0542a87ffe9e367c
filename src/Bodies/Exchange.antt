-- ===== src/Bodies/Exchange.antt =====
-- What one memory body handler of src/bodyhandler.c gives, another takes.
use belle_sip.Prelude.{
  drop-drop, ℕ, ◌+◌, ◌-◌, ◌<◌, ◌≤◌, ◌≡◌, ◌∙◌, refl, sym, ap, inl, inr, ltb, List, [], ◌∷◌, ◌++◌,
  length, length-append, take, drop, take-drop, Bool-cases, arith, String,
}
use mathlib.Core.List.{append_assoc}
use mathlib.Core.Path.{subst}
use belle_sip.Bodies.Memory.{
  continue, word, MemoryBody, new_from_buffer, begin_transfer, send_chunk, recv_chunk, IsUnderWay,
  take_all, send_chunk_some, send_chunk_all,
}

-- The loop over the pieces, by what each has given.
unfoldable pub pieces : List ℕ → MemoryBody → List String
unfolding send_chunk
pieces [] b = []
pieces (n ∷ ns) b =
    let c = send_chunk n b in
    let rest = pieces ns c.body in c.written ∷ elim c.status [ continue ↦ rest | _ ↦ [] ]

unfoldable pub receive : List String → MemoryBody → MemoryBody
unfolding recv_chunk
receive [] r = r
receive (s ∷ l) r = receive l (recv_chunk s r)

abbrev pub AllPositive : List ℕ → Type 0
AllPositive [] = Unit
AllPositive (n ∷ ns) = (0 < n) × AllPositive ns

-- A handler that holds what it was given.
recv_chunk_lem :
    (s : String) (r : MemoryBody)
    → r.transfered_size ≡ length r.buffer
    → ((recv_chunk s r).buffer ≡ r.buffer ++ s)
      × ((recv_chunk s r).transfered_size ≡ length (recv_chunk s r).buffer)
unfolding recv_chunk
recv_chunk_lem s r e =
    let whole : take r.transfered_size r.buffer ≡ r.buffer =
      take_all r.transfered_size r.buffer (omega (arith, e)) in
    (
      ap (λ x. x ++ s) whole,
      omega (arith, e, ap (λ x. length (x ++ s)) whole, length-append r.buffer s),
    )

exchange_lem :
    (ns : List ℕ) (b r : MemoryBody)
    → IsUnderWay b
    → AllPositive ns
    → length b.buffer - b.transfered_size ≤ length ns
    → r.transfered_size ≡ length r.buffer
    → ((receive (pieces ns b) r).buffer ≡ r.buffer ++ drop b.transfered_size b.buffer)
      × ((receive (pieces ns b) r).transfered_size ≡ length (receive (pieces ns b) r).buffer)
unfolding pieces receive
exchange_lem [] b r u a l e = absurd (omega (arith, u.unfinished))
exchange_lem (n ∷ ns) b r u (a, later) l e =
    elim (Bool-cases (ltb n (length b.buffer - b.transfered_size))) [
      | inl t ↦
          let c = send_chunk_some n b u (ground (arith, t)) in
          let b2 = record b { transfered_size = b.transfered_size + n } in
          let s = take n (drop b.transfered_size b.buffer) in
          let run : pieces (n ∷ ns) b ≡ s ∷ pieces ns b2 =
            ap (λ c. c.written ∷ elim c.status [ continue ↦ pieces ns c.body | _ ↦ [] ]) c in
          let (p, q) = recv_chunk_lem s r e in
          let (v, w) =
            exchange_lem ns b2 (recv_chunk s r)
              (record {
                size_is = u.size_is;
                unfinished = ground (arith, t);
                no_overflow = u.no_overflow;
              })
              later (omega (arith, a, l)) q in
          let joined : (r.buffer ++ s) ++ drop (b.transfered_size + n) b.buffer
              ≡ r.buffer ++ drop b.transfered_size b.buffer =
            append_assoc r.buffer s (drop (b.transfered_size + n) b.buffer)
            ∙ ap (λ x. r.buffer ++ (s ++ x))
                (sym (drop-drop b.transfered_size n (b.transfered_size + n) b.buffer refl))
            ∙ ap (λ x. r.buffer ++ x) (take-drop n (drop b.transfered_size b.buffer)) in
          subst
            (λ ps.
              ((receive ps r).buffer ≡ r.buffer ++ drop b.transfered_size b.buffer)
              × ((receive ps r).transfered_size ≡ length (receive ps r).buffer))
            (sym run) (v ∙ ap (λ x. x ++ drop (b.transfered_size + n) b.buffer) p ∙ joined, w)
      | inr t ↦
          let c = send_chunk_all n b u (ground (arith, t)) in
          let run : pieces (n ∷ ns) b ≡ drop b.transfered_size b.buffer ∷ [] =
            ap (λ c. c.written ∷ elim c.status [ continue ↦ pieces ns c.body | _ ↦ [] ]) c in
          subst
            (λ ps.
              ((receive ps r).buffer ≡ r.buffer ++ drop b.transfered_size b.buffer)
              × ((receive ps r).transfered_size ≡ length (receive ps r).buffer))
            (sym run) (recv_chunk_lem (drop b.transfered_size b.buffer) r e)
    ]

-- The pieces that a handler of a text gives, in whatever sizes but 0 and often enough, make another
-- handler hold the text, if that was empty; it was told the length of the text.
pub memory_roundtrip :
    (s : String) (ns : List ℕ)
    → 0 < length s
    → length s < word
    → AllPositive ns
    → length s ≤ length ns
    → let taken =
        receive
          (pieces ns (begin_transfer (new_from_buffer s)))
          (begin_transfer (new_from_buffer [])) in
      (taken.buffer ≡ s) × (taken.transfered_size ≡ length s)
unfolding begin_transfer new_from_buffer
memory_roundtrip s ns p h a l =
    let (v, w) =
      exchange_lem ns (begin_transfer (new_from_buffer s)) (begin_transfer (new_from_buffer []))
        (record { size_is = refl; unfinished = p; no_overflow = h }) a (omega (arith, l)) refl in
    (v, w ∙ ap length v)
