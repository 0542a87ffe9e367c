-- ===== src/Text/EscapeOverflow.antt =====
-- When belle_sip_escape writes outside its block.
use belle_sip.Prelude.{
  ℕ, ◌+◌, ◌*◌, ◌/◌, ◌%◌, ◌^◌, ◌<◌, ◌≤◌, ◌≡◌, ◌∙◌, sym, ap, max, inl, inr, true, false, Option, none,
  some, List, [], ◌∷◌, ◌++◌, length, length-append, ltb, Bool-cases, Option-cases, arith,
}
use belle_sip.Text.Buffer.{
  Buffer, blank, bind, write_all, c_string, write_beyond, write_all_beyond, length-write_all,
  length-blank,
}
use belle_sip.Text.Noescapes.{Table}
use belle_sip.Text.Escape.{sub_size, hex_digit, fit, advance, escape_char, escape_loop, escape}
use belle_sip.Text.EscapeBounds.{char_unsafe, fit_all}

-- Every character has to be escaped.
abbrev pub AllUnsafe : Table → List ℕ → Type 0
AllUnsafe noescapes [] = Unit
AllUnsafe noescapes (c ∷ cs) = (noescapes c ≡ false) × AllUnsafe noescapes cs

char-some :
    (noescapes : Table) (c size index i : ℕ) (b d : Buffer)
    → noescapes c ≡ false
    → escape_char noescapes c size index b ≡ some (d, i)
    → (i ≡ index + 3) × (length d ≡ length b)
char-some noescapes c size index i b d u e =
    let vs = fit (sub_size size index) b'%' (hex_digit (c / 16)) (hex_digit (c % 16)) in
    elim (Option-cases (write_all b index vs)) [
      | inl bad ↦ let eq = sym (char_unsafe noescapes c size index b u) ∙ e in ground arith
      | inr (f, so) ↦
          let eq = sym (char_unsafe noescapes c size index b u) ∙ e in
          ground (arith, length-write_all b f index vs so)
    ]

char-none :
    (noescapes : Table) (c size index : ℕ) (b : Buffer)
    → noescapes c ≡ false
    → length b ≡ size + 1
    → size < index
    → index < size + 2 ^ 63
    → escape_char noescapes c size index b ≡ none
char-none noescapes c size index b u l h k =
    let hi = hex_digit (c / 16) in
    let lo = hex_digit (c % 16) in
    let r : Buffer → Option (Buffer × ℕ) = advance (index + 3) in
    char_unsafe noescapes c size index b u
    ∙ ap (λ vs. bind (write_all b index vs) r)
        (fit_all (sub_size size index) b'%' hi lo (omega arith))
    ∙ ap (λ o. bind o r) (write_all_beyond b index b'%' (hi ∷ lo ∷ 0 ∷ []) (omega arith))

-- Once the index has passed 3, the block grows no more before the fault.
loop-none :
    (noescapes : Table) (orig : ℕ) (cs : List ℕ) (size index : ℕ) (b : Buffer)
    → AllUnsafe noescapes cs
    → length b ≡ size + 1
    → 3 ≤ index
    → index ≤ size + 3
    → size < index + 3 * length cs
    → size < 2 ^ 62
    → escape_loop noescapes orig cs size index b ≡ none
unfolding escape_loop
loop-none noescapes orig [] size index b u l h k m n = write_beyond b index 0 (omega arith)
loop-none noescapes orig (c ∷ cs) size index b u l h k m n =
    let still : ltb size (sub_size index 3) ≡ false = ground arith in
    rw still (elim (Bool-cases (ltb size index)) [
      | inl over ↦ rw (char-none noescapes c size index b u.0 l (ground arith) (omega arith))
      | inr inside ↦ elim (Option-cases (escape_char noescapes c size index b)) [
        | inl bad ↦ rw bad
        | inr ((d, i), so) ↦
            let (ei, ld) = char-some noescapes c size index i b d u.0 so in
            rw so (
              loop-none noescapes orig cs size i d u.1 (omega arith) (omega arith) (ground arith)
                (omega arith) n)
      ]
    ])

-- A text of two characters or more (and less than 2 ^ 31) that all have to be escaped makes the
-- function write outside its block.
pub escape_overflow :
    (noescapes : Table) (cs : List ℕ)
    → AllUnsafe noescapes cs
    → 2 ≤ length cs
    → length cs < 2 ^ 31
    → escape noescapes cs ≡ none
unfolding escape escape_loop
escape_overflow noescapes [] u h k = absurd (omega arith)
escape_overflow noescapes (c ∷ cs) u h k =
    let n = length (c ∷ cs) in
    let b = blank (n + 1) ++ blank (max (n / 2) 3) in
    let size = n + max (n / 2) 3 in
    let grows : ltb n (sub_size 0 3) ≡ true = ground arith in
    let total : length b ≡ size + 1 = omega (
      arith,
      length-append (blank (n + 1)) (blank (max (n / 2) 3)),
      length-blank (n + 1),
      length-blank (max (n / 2) 3),
    ) in
    rw grows (elim (Option-cases (escape_char noescapes c size 0 b)) [
      | inl bad ↦ rw bad
      | inr ((d, i), so) ↦
          let (ei, ld) = char-some noescapes c size 0 i b d u.0 so in
          rw so (
            ap (λ o. bind o c_string)
              (loop-none noescapes n cs size i d u.1 (omega arith) (omega arith) (omega arith)
                (omega arith) (omega arith)))
    ])
