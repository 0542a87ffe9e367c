-- ===== src/Text/EscapeBounds.antt =====
-- When belle_sip_escape stays inside its block and returns the escaped text, and when it does not.
use belle_sip.Prelude.{
  ℕ, ◌+◌, ◌*◌, ◌/◌, ◌%◌, ◌^◌, ◌<◌, ◌≤◌, ◌≡◌, ◌≢◌, inl, inr, ◌∙◌, sym, ap, refl, max, true, false,
  some, List, [], ◌∷◌, ◌++◌, map, length, length-append, drop, length-drop, ltb, Bool-cases, arith,
}
use mathlib.Core.List.{append_assoc, append-nil}
use belle_sip.Text.Buffer.{
  Buffer, blank, bind, write, write_all, c_string, written, write_next, written-written,
  write_all_next, length-blank, IsText, c_string-written,
}
use belle_sip.Text.Noescapes.{Table}
use belle_sip.Text.Escape.{
  sub_size, hex_digit, fit, advance, grown_size, grown, escape_char, escape_loop, escape,
  escaped_char, escaped,
}

-- A block of `size + 1` bytes whose first ones are `p`.
abbrev Holds : Buffer → ℕ → List ℕ → Type 0
Holds b size p = (rest : Buffer) × (b ≡ written p rest) × (length p + length rest ≡ size + 1)

put_one :
    (p : List ℕ) (rest : Buffer) (c : ℕ)
    → 0 < length rest
    → (rest' : Buffer) × (write (written p rest) (length p) c ≡ some (written (p ++ c ∷ []) rest'))
      × (length rest' + 1 ≡ length rest)
put_one p [] c h = absurd (omega arith)
put_one p (x ∷ rest) c h =
    (rest, write_next p x rest c ∙ ap some (written-written p (c ∷ []) rest), omega arith)

put_code :
    (p : List ℕ) (rest : Buffer) (a b c : ℕ)
    → 3 < length rest
    → (rest' : Buffer) × (write_all (written p rest) (length p) (a ∷ b ∷ c ∷ 0 ∷ [])
        ≡ some (written (p ++ a ∷ b ∷ c ∷ []) rest'))
      × (length rest' + 3 ≡ length rest)
put_code p rest a b c h = (
  some 0 ∷ drop 4 rest,
  write_all_next p (a ∷ b ∷ c ∷ 0 ∷ []) rest h
      ∙ ap some (written-written p (a ∷ b ∷ c ∷ []) (some 0 ∷ drop 4 rest)),
  omega (arith, length-drop 4 rest),
)

pub fit_all : (size a b c : ℕ) → 3 < size → fit size a b c ≡ a ∷ b ∷ c ∷ 0 ∷ []
fit_all size a b c h = ground arith

escaped_safe : (noescapes : Table) (c : ℕ) → noescapes c ≡ true → escaped_char noescapes c ≡ c ∷ []
unfolding escaped_char
escaped_safe noescapes c e = rw e

abbrev percent : ℕ → List ℕ
percent c = b'%' ∷ hex_digit (c / 16) ∷ hex_digit (c % 16) ∷ []

escaped_unsafe :
    (noescapes : Table) (c : ℕ) → noescapes c ≡ false → escaped_char noescapes c ≡ percent c
unfolding escaped_char
escaped_unsafe noescapes c e = rw e

advance_lem : (index : ℕ) (b : Buffer) → index < 2 ^ 31 → advance index b ≡ some (b, index)
advance_lem index b h = ground arith

char_safe :
    (noescapes : Table) (c size index : ℕ) (b : Buffer)
    → noescapes c ≡ true
    → escape_char noescapes c size index b ≡ bind (write b index c) (advance (index + 1))
unfolding escape_char
char_safe noescapes c size index b e = rw e

pub char_unsafe :
    (noescapes : Table) (c size index : ℕ) (b : Buffer)
    → noescapes c ≡ false
    → escape_char noescapes c size index b
      ≡ bind
          (write_all b index
            (fit (sub_size size index) b'%' (hex_digit (c / 16)) (hex_digit (c % 16))))
          (advance (index + 3))
unfolding escape_char
char_unsafe noescapes c size index b e = rw e

-- One character is written whole, if it leaves a byte to spare.
escape_char-Holds :
    (noescapes : Table) (c size : ℕ) (p : List ℕ) (rest : Buffer)
    → size < 2 ^ 64
    → length p + length (escaped_char noescapes c) < size
    → length p + length (escaped_char noescapes c) < 2 ^ 31
    → length p + length rest ≡ size + 1
    → (rest' : Buffer) × (escape_char noescapes c size (length p) (written p rest)
        ≡ some
            (written (p ++ escaped_char noescapes c) rest', length (p ++ escaped_char noescapes c)))
      × (length (p ++ escaped_char noescapes c) + length rest' ≡ size + 1)
escape_char-Holds noescapes c size p rest lt room int l = elim (Bool-cases (noescapes c)) [
  | inl safe ↦ rw (escaped_safe noescapes c safe) (
      let (rest', e, k) = put_one p rest c (omega arith) in
      let n = length-append p (c ∷ []) in
      (
        rest',
        char_safe noescapes c size (length p) (written p rest) safe
            ∙ ap (λ o. bind o (advance (length p + 1))) e
            ∙ advance_lem (length p + 1) (written (p ++ c ∷ []) rest')
                (omega (arith, int, ap length (escaped_safe noescapes c safe)))
            ∙ ap (λ i. some (written (p ++ c ∷ []) rest', i)) (sym n),
        omega (arith, n),
      ))
  | inr unsafe ↦ rw (escaped_unsafe noescapes c unsafe) (
      let room' : length p + 3 < size =
        omega (arith, ap length (escaped_unsafe noescapes c unsafe)) in
      let hi = hex_digit (c / 16) in
      let lo = hex_digit (c % 16) in
      let (rest', e, k) = put_code p rest b'%' hi lo (omega arith) in
      let n = length-append p (percent c) in
      let whole = fit_all (sub_size size (length p)) b'%' hi lo (omega arith) in
      (
        rest',
        char_unsafe noescapes c size (length p) (written p rest) unsafe
            ∙ ap (λ vs. bind (write_all (written p rest) (length p) vs) (advance (length p + 3)))
                whole
            ∙ ap (λ o. bind o (advance (length p + 3))) e
            ∙ advance_lem (length p + 3) (written (p ++ percent c) rest')
                (omega (arith, int, ap length (escaped_unsafe noescapes c unsafe)))
            ∙ ap (λ i. some (written (p ++ percent c) rest', i)) (sym n),
        omega (arith, n),
      ))
]

-- The block's size when the first character of `cs` is written.
abbrev room_size : ℕ → ℕ → ℕ → List ℕ → ℕ
room_size orig size index [] = size
room_size orig size index (c ∷ cs) = grown_size orig size index

size-le-room_size : (orig size index : ℕ) (cs : List ℕ) → size ≤ room_size orig size index cs
size-le-room_size orig size index [] = omega arith
size-le-room_size orig size index (c ∷ cs) = ground arith

grown_size_le : (orig size index : ℕ) → grown_size orig size index ≤ size + max (orig / 2) 3
grown_size_le orig size index = ground arith

grown-written :
    (orig size : ℕ) (p : List ℕ) (rest : Buffer)
    → length p + length rest ≡ size + 1
    → (rest' : Buffer) × (grown orig size (length p) (written p rest) ≡ written p rest')
      × (length p + length rest' ≡ grown_size orig size (length p) + 1)
grown-written orig size p rest l = elim (Bool-cases (ltb size (sub_size (length p) 3))) [
  | inl more ↦
      let extra = max (orig / 2) 3 in
      (
        rest ++ blank extra,
        rw more (append_assoc (map some p) rest (blank extra)),
        rw more (omega (arith, length-append rest (blank extra), length-blank extra)),
      )
  | inr enough ↦ (rest, rw enough, rw enough l)
]

-- The loop writes the escaped text and its zero, if the text is shorter than the block's size and
-- no size can overflow.
escape_loop-Holds :
    (noescapes : Table) (orig : ℕ) (cs : List ℕ) (size : ℕ) (p : List ℕ) (rest : Buffer)
    → length p + length (escaped noescapes cs) < room_size orig size (length p) cs
    → size + length cs * max (orig / 2) 3 < 2 ^ 64
    → length p + length (escaped noescapes cs) < 2 ^ 31
    → length p + length rest ≡ size + 1
    → (rest' : Buffer) × (escape_loop noescapes orig cs size (length p) (written p rest)
        ≡ some (written (p ++ escaped noescapes cs) (some 0 ∷ rest')))
unfolding escape_loop escaped
escape_loop-Holds noescapes orig [] size p [] room lt int l = absurd (omega arith)
escape_loop-Holds noescapes orig [] size p (x ∷ rest) room lt int l =
    (rest, rw append-nil (write_next p x rest 0))
escape_loop-Holds noescapes orig (c ∷ cs) size p rest room lt int l =
    let q = p ++ escaped_char noescapes c in
    let size' = grown_size orig size (length p) in
    let (rest1, e1, l1) = grown-written orig size p rest l in
    let split = length-append (escaped_char noescapes c) (escaped noescapes cs) in
    let joined = length-append p (escaped_char noescapes c) in
    let bound = grown_size_le orig size (length p) in
    let (rest2, e2, l2) =
      escape_char-Holds noescapes c size' p rest1 (omega arith) (omega arith)
        (omega (arith, int, split)) l1 in
    let (rest3, e3) =
      escape_loop-Holds noescapes orig cs size' q rest2
        (omega (arith, size-le-room_size orig size' (length q) cs)) (omega arith)
        (omega (arith, int, split, joined)) l2 in
    let k = λ (x : Buffer × ℕ). escape_loop noescapes orig cs size' x.1 x.0 in
    (
      rest3,
      ap (λ b. bind (escape_char noescapes c size' (length p) b) k) e1
          ∙ ap (λ o. bind o k) e2
          ∙ e3
          ∙ ap (λ t. some (written t (some 0 ∷ rest3)))
              (append_assoc p (escaped_char noescapes c) (escaped noescapes cs)),
    )

hex_digit_ne : (n : ℕ) → hex_digit n ≢ 0
hex_digit_ne n = ground arith

escaped-IsText : (noescapes : Table) (cs : List ℕ) → IsText cs → IsText (escaped noescapes cs)
unfolding escaped escaped_char
escaped-IsText noescapes [] t = tt
escaped-IsText noescapes (c ∷ cs) t =
    ground (arith, escaped-IsText noescapes cs t.1, hex_digit_ne (c / 16), hex_digit_ne (c % 16))

escaped_char_longer : (noescapes : Table) (c : ℕ) → 1 ≤ length (escaped_char noescapes c)
unfolding escaped_char
escaped_char_longer noescapes c = ground arith

escaped_longer : (noescapes : Table) (cs : List ℕ) → length cs ≤ length (escaped noescapes cs)
unfolding escaped
escaped_longer noescapes [] = omega arith
escaped_longer noescapes (c ∷ cs) = omega (
  arith,
  length-append (escaped_char noescapes c) (escaped noescapes cs),
  escaped_char_longer noescapes c,
  escaped_longer noescapes cs,
)

product_bound : (n m : ℕ) → n < 2 ^ 31 → m < 2 ^ 31 → n * m ≤ 2 ^ 31 * m
product_bound n m h k = grind arith

size_bound : (n : ℕ) → n < 2 ^ 31 → n + n * max (n / 2) 3 < 2 ^ 64
size_bound n h = omega (arith, product_bound n (max (n / 2) 3) h (omega arith))

-- A C string whose escaped form has less than 2 ^ 31 bytes is escaped as it should be, inside the block
-- and with no overflow of the index, if the escapes lengthen it by less than half its length, or by at
-- most two bytes.
pub escape_correct :
    (noescapes : Table) (cs : List ℕ)
    → IsText cs
    → length (escaped noescapes cs) < 2 ^ 31
    → length (escaped noescapes cs) < length cs + max (length cs / 2) 3
    → escape noescapes cs ≡ some (escaped noescapes cs)
unfolding escape
escape_correct noescapes [] t int short = unfold write c_string escaped in refl
escape_correct noescapes (c ∷ cs) t int short =
    let all = c ∷ cs in
    let n = length all in
    let lt : n < 2 ^ 31 = omega (arith, int, escaped_longer noescapes all) in
    let room : room_size n n 0 all ≡ n + max (n / 2) 3 = ground arith in
    let (rest, e) =
      escape_loop-Holds noescapes n all n [] (blank (n + 1)) (omega arith)
        (omega (arith, size_bound n lt)) (omega (arith, int))
        (omega (arith, length-blank (n + 1))) in
    ap (λ o. bind o c_string) e
    ∙ c_string-written (escaped noescapes all) rest (escaped-IsText noescapes all t)
