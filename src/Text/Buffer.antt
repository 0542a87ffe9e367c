-- ===== src/Text/Buffer.antt =====
-- A block of memory: its bytes, `none` where nothing was written yet. To write outside it is a
-- fault, `none`. A text is the list of its bytes, less the final zero.
use mathlib.Core.Path.{ap₂}
use belle_sip.Prelude.{
  ℕ, zero, suc, ◌+◌, ◌≤◌, ◌≡◌, ◌≢◌, refl, ap, ◌==◌, Option, none, some, List, [], ◌∷◌, ◌++◌, map,
  length, length-append, drop, sym, ◌∙◌, Option-cases, inl, inr, arith, if◌then◌else◌,
}

abbrev pub Buffer : Type 0
Buffer = List (Option ℕ)

-- malloc, and the part that realloc adds
abbrev pub blank : ℕ → Buffer
blank zero = []
blank (suc n) = none ∷ blank n

abbrev pub bind {ℓ κ} : {A : Type ℓ} {B : Type κ} → Option A → (A → Option B) → Option B
bind none f = none
bind (some a) f = f a

abbrev pub prepend : Option ℕ → Option Buffer → Option Buffer
prepend x none = none
prepend x (some b) = some (x ∷ b)

unfoldable pub write : Buffer → ℕ → ℕ → Option Buffer
write [] i v = none
write (x ∷ b) zero v = some (some v ∷ b)
write (x ∷ b) (suc i) v = prepend x (write b i v)

-- The bytes `vs` one after the other from `i` on.
unfoldable pub write_all : Buffer → ℕ → List ℕ → Option Buffer
write_all b i [] = some b
write_all b i (v ∷ vs) = bind (write b i v) (λ c. write_all c (i + 1) vs)

-- The C string at the start of a block, `none` if the search for its zero meets a byte that was not
-- written or the end of the block.
unfoldable pub c_string : Buffer → Option (List ℕ)
c_string [] = none
c_string (none ∷ b) = none
c_string (some v ∷ b) =
    let rest = c_string b in
    if v == 0 then some [] else elim rest [ none ↦ none | some t ↦ some (v ∷ t) ]

abbrev pub written : List ℕ → Buffer → Buffer
written p rest = map some p ++ rest

pub write_next :
    (p : List ℕ) (x : Option ℕ) (rest : Buffer) (v : ℕ)
    → write (written p (x ∷ rest)) (length p) v ≡ some (written p (some v ∷ rest))
unfolding write
write_next [] x rest v = refl
write_next (y ∷ p) x rest v = rw (write_next p x rest v)

pub written-written :
    (p q : List ℕ) (rest : Buffer) → written p (written q rest) ≡ written (p ++ q) rest
written-written [] q rest = refl
written-written (x ∷ p) q rest = ap (◌∷◌ (some x)) (written-written p q rest)

pub write_all_next :
    (p vs : List ℕ) (rest : Buffer)
    → length vs ≤ length rest
    → write_all (written p rest) (length p) vs
      ≡ some (written p (written vs (drop (length vs) rest)))
unfolding write_all
write_all_next p [] rest h = refl
write_all_next p (v ∷ vs) [] h = absurd (omega arith)
write_all_next p (v ∷ vs) (x ∷ rest) h = rw (write_next p x rest v) (
    let q = p ++ v ∷ [] in
    let here : written p (some v ∷ rest) ≡ written q rest = written-written p (v ∷ []) rest in
    let count : length p + 1 ≡ length q = omega (arith, length-append p (v ∷ [])) in
    ap₂ (λ b i. write_all b i vs) here count
    ∙ write_all_next q vs rest (omega arith)
    ∙ ap some (sym (written-written p (v ∷ []) (written vs (drop (length vs) rest)))))

pub write_beyond : (b : Buffer) (i v : ℕ) → length b ≤ i → write b i v ≡ none
unfolding write
write_beyond [] i v h = refl
write_beyond (x ∷ b) zero v h = absurd (omega arith)
write_beyond (x ∷ b) (suc i) v h = rw (write_beyond b i v (omega arith))

pub write_all_beyond :
    (b : Buffer) (i v : ℕ) (vs : List ℕ) → length b ≤ i → write_all b i (v ∷ vs) ≡ none
unfolding write_all
write_all_beyond b i v vs h = rw (write_beyond b i v h)

pub length-write : (b c : Buffer) (i v : ℕ) → write b i v ≡ some c → length c ≡ length b
unfolding write
length-write [] c i v e = cc
length-write (x ∷ b) c zero v e = ground arith
length-write (x ∷ b) c (suc i) v e = elim (Option-cases (write b i v)) [
  | inl bad ↦ ground arith
  | inr (d, so) ↦ ground (arith, length-write b d i v so)
]

pub length-write_all :
    (b c : Buffer) (i : ℕ) (vs : List ℕ) → write_all b i vs ≡ some c → length c ≡ length b
unfolding write_all
length-write_all b c i [] e = ground arith
length-write_all b c i (v ∷ vs) e = elim (Option-cases (write b i v)) [
  | inl bad ↦ ground arith
  | inr (d, so) ↦ length-write_all d c (i + 1) vs (rw so at e) ∙ length-write b d i v so
]

pub length-blank : (n : ℕ) → length (blank n) ≡ n
length-blank zero = refl
length-blank (suc n) = ap suc (length-blank n)

abbrev pub IsText : List ℕ → Type 0
IsText [] = Unit
IsText (c ∷ cs) = (c ≢ 0) × IsText cs

pub c_string-written :
    (p : List ℕ) (rest : Buffer) → IsText p → c_string (written p (some 0 ∷ rest)) ≡ some p
unfolding c_string
c_string-written [] rest t = refl
c_string-written (c ∷ p) rest t = ground (arith, c_string-written p rest t.1)
