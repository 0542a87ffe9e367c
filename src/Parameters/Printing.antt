-- ===== src/Parameters/Printing.antt =====
-- Printing parameters into a buffer.
use belle_sip.Prelude.{
  ℕ, zero, suc, ◌+◌, ◌-◌, ◌<◌, ◌≤◌, ◌≡◌, ◌∙◌, refl, sym, ap, inl, inr, true, false, List, [], ◌∷◌,
  ◌++◌, length, length-append, take, leb, if◌then◌else◌, Bool-cases, arith, String,
}
use belle_sip.Parameters.Defs.{
  Pair, Parameters, ErrorCode, ok, buffer_overflow, Printed, print, piece_of, marshal_pairs,
  marshal,
}
use mathlib.Core.List.{append_assoc, append-nil}

-- All pairs, one behind the other.
abbrev pub all_pieces : List Pair → String
all_pieces [] = []
all_pieces (x ∷ l) = piece_of x ++ all_pieces l

abbrev pub at_end : String → Printed
at_end s = record { text = s; offset = length s }

take_all : (n : ℕ) (a b : String) → n ≤ length a → take n (a ++ b) ≡ take n a
take_all zero a b h = refl
take_all (suc n) [] b h = absurd (omega arith)
take_all (suc n) (x ∷ a) b h = ap (◌∷◌ x) (take_all n a b (omega arith))

take_past : (n : ℕ) (a b : String) → take (length a + n) (a ++ b) ≡ a ++ take n b
take_past n [] b = ap (λ k. take k b) (omega arith)
take_past n (x ∷ a) b =
    ap (λ k. take k (x ∷ a ++ b))
      (let e : length (x ∷ a) + n ≡ suc (length a + n) = omega arith in e)
    ∙ ap (◌∷◌ x) (take_past n a b)

-- What a buffer is after an overflow: as much of the text as fits, and no room.
abbrev pub cut : ℕ → String → ErrorCode × Printed
cut size s = (buffer_overflow, record { text = take (size - 1) s; offset = size })

print_full :
    (size : ℕ) (piece s : String)
    → length s < size
    → leb (size - length s) (length piece) ≡ true
    → print size piece (at_end s) ≡ cut size (s ++ piece)
unfolding print
print_full size piece s h full =
    let k : length s + (size - length s - 1) ≡ size - 1 = omega arith in
    rw (full, print)
      (ap (λ t. (buffer_overflow, record { text = t; offset = size }))
        (sym (take_past (size - length s - 1) s piece) ∙ ap (λ n. take n (s ++ piece)) k))

print_fits :
    (size : ℕ) (piece s : String)
    → leb (size - length s) (length piece) ≡ false
    → print size piece (at_end s) ≡ (ok, at_end (s ++ piece))
unfolding print
print_fits size piece s fits =
    rw (fits, print)
      (ap (λ n. (ok, record { text = s ++ piece; offset = n })) (sym (length-append s piece)))

-- The other pairs are printed if there was no error.
abbrev then_rest : ℕ → List Pair → ErrorCode × Printed → ErrorCode × Printed
then_rest size l r = elim r.0 [ ok ↦ marshal_pairs size l r.1 | buffer_overflow ↦ r ]

marshal_pairs-cons :
    (size : ℕ) (x : Pair) (l : List Pair) (b : Printed)
    → marshal_pairs size (x ∷ l) b ≡ then_rest size l (print size (piece_of x) b)
unfolding marshal_pairs
marshal_pairs-cons size x l b = refl

abbrev pub outcome : ℕ → String → ErrorCode × Printed
outcome size s = if leb size (length s) then cut size s else (ok, at_end s)

cut-outcome : (size : ℕ) (a b : String) → size ≤ length a → cut size a ≡ outcome size (a ++ b)
cut-outcome size a b h =
    let e : leb size (length (a ++ b)) ≡ true = ground (arith, length-append a b) in
    rw e (
      ap (λ t. (buffer_overflow, record { text = t; offset = size }))
        (sym (take_all (size - 1) a b (omega arith))))

marshal_pairs_lem :
    (size : ℕ) (l : List Pair) (s : String)
    → length s < size
    → marshal_pairs size l (at_end s) ≡ outcome size (s ++ all_pieces l)
unfolding marshal_pairs
marshal_pairs_lem size [] s h =
    let e : leb size (length s) ≡ false = ground arith in rw (append-nil s, e) refl
marshal_pairs_lem size (x ∷ l) s h =
    let a = append_assoc s (piece_of x) (all_pieces l) in
    let n = length-append s (piece_of x) in
    marshal_pairs-cons size x l (at_end s)
    ∙ (elim (Bool-cases (leb (size - length s) (length (piece_of x)))) [
      | inl full ↦
          ap (then_rest size l) (print_full size (piece_of x) s h full)
          ∙ cut-outcome size (s ++ piece_of x) (all_pieces l) (ground (arith, full, n))
          ∙ ap (outcome size) a
      | inr fits ↦
          ap (then_rest size l) (print_fits size (piece_of x) s fits)
          ∙ marshal_pairs_lem size l (s ++ piece_of x) (ground (arith, fits, n))
          ∙ ap (outcome size) a
    ])

-- Printing behind a text that ends before the end of the buffer: if all parameters fit in front of the
-- final zero, they are printed one behind the other and the offset is moved behind them; otherwise
-- the result is an overflow, the buffer holds as much as fits, and the offset is the buffer's size.
pub marshal-outcome :
    (size : ℕ) (p : Parameters) (s : String)
    → length s < size
    → marshal size p (at_end s) ≡ outcome size (s ++ all_pieces p.param_list)
unfolding marshal
marshal-outcome size p s h = marshal_pairs_lem size p.param_list s h
