-- ===== src/Text/Backslash.antt =====
-- belle_sip_string_to_backslash_less_unescaped_string and
-- belle_sip_display_name_to_backslashed_escaped_string.
use belle_sip.Prelude.{
  ℕ, ◌+◌, ◌-◌, ◌<◌, ◌≤◌, ◌≡◌, ◌≢◌, ◌∙◌, ap, refl, ◌⊎◌, inl, inr, Bool, ◌==◌, ◌||◌, Option, none,
  some, List, [], ◌∷◌, ◌++◌, length, ltb, Bool-cases, if◌then◌else◌, arith,
}

abbrev prepend : ℕ → Option (List ℕ) → Option (List ℕ)
prepend x none = none
prepend x (some l) = some (x ∷ l)

-- `none` where the index passes over the final zero: behind a backslash the next character is
-- copied whatever it is.
unfoldable pub backslash_less : List ℕ → Option (List ℕ)
backslash_less [] = some []
backslash_less (c ∷ []) = if c == b'\\' then none else some (c ∷ [])
backslash_less (c ∷ d ∷ rest) =
    let skipped = prepend d (backslash_less rest) in
    let kept = prepend c (backslash_less (d ∷ rest)) in if c == b'\\' then skipped else kept

-- BELLE_SIP_MAX_TO_STRING_SIZE
abbrev pub max_to_string_size : ℕ
max_to_string_size = 2048

abbrev pub is_special : ℕ → Bool
is_special c = c == b'"' || c == b'\\'

abbrev pub escaped_length : ℕ → ℕ
escaped_length c = if is_special c then 2 else 1

abbrev pub escaped_char : ℕ → List ℕ
escaped_char c = if is_special c then b'\\' ∷ c ∷ [] else c ∷ []

-- `room` is what the index may still grow by before it reaches sizeof(output_buff) - 2: the loop
-- stops there, in the middle of the text.
unfoldable pub backslashed_loop : ℕ → List ℕ → List ℕ
backslashed_loop room [] = []
backslashed_loop room (c ∷ cs) =
    let rest = escaped_char c ++ backslashed_loop (room - escaped_length c) cs in
    if ltb 0 room then rest else []

unfoldable pub display_name_to_backslashed_escaped_string : List ℕ → List ℕ
unfolding backslashed_loop
display_name_to_backslashed_escaped_string buff = backslashed_loop (max_to_string_size - 2) buff

abbrev pub total_length : List ℕ → ℕ
total_length [] = 0
total_length (c ∷ cs) = escaped_length c + total_length cs

backslash_less-escaped_char :
    (c : ℕ) (rest : List ℕ)
    → backslash_less (escaped_char c ++ rest) ≡ prepend c (backslash_less rest)
unfolding backslash_less
backslash_less-escaped_char c [] = ground arith
backslash_less-escaped_char c (d ∷ rest) = ground arith

loop-roundtrip :
    (room : ℕ) (cs : List ℕ)
    → (p : List ℕ) × (q : List ℕ) × (cs ≡ p ++ q)
      × (backslash_less (backslashed_loop room cs) ≡ some p)
      × ((q ≡ []) ⊎ (room < total_length cs))
unfolding backslashed_loop
loop-roundtrip room [] = ([], [], refl, unfold backslash_less in refl, inl refl)
loop-roundtrip room (c ∷ cs) = elim (Bool-cases (ltb 0 room)) [
  | inl more ↦
      let rest = backslashed_loop (room - escaped_length c) cs in
      let (p, q, e, u, all) = loop-roundtrip (room - escaped_length c) cs in
      (
        c ∷ p,
        q,
        ap (◌∷◌ c) e,
        rw more (backslash_less-escaped_char c rest ∙ ap (prepend c) u),
        ground arith,
      )
  | inr full ↦ ([], c ∷ cs, refl, rw full (unfold backslash_less in refl), inr (ground arith))
]

-- A display name is given back by the removal of its backslashes, whole if its escaped form has at
-- most 2046 characters and otherwise cut short, but never within an escape.
pub backslash_roundtrip :
    (cs : List ℕ)
    → (p : List ℕ) × (q : List ℕ) × (cs ≡ p ++ q)
      × (backslash_less (display_name_to_backslashed_escaped_string cs) ≡ some p)
      × ((q ≡ []) ⊎ (2046 < total_length cs))
unfolding display_name_to_backslashed_escaped_string
backslash_roundtrip cs = loop-roundtrip 2046 cs

loop-length :
    (room : ℕ) (cs : List ℕ)
    → length (backslashed_loop room cs) ≤ (if ltb 0 room then room + 1 else 0)
unfolding backslashed_loop
loop-length room [] = ground arith
loop-length room (c ∷ cs) = ground (arith, loop-length (room - escaped_length c) cs)

-- Whatever the display name, its escaped form and the final zero fit the buffer of 2048 bytes.
pub backslashed_fits :
    (cs : List ℕ) → length (display_name_to_backslashed_escaped_string cs) + 1 ≤ max_to_string_size
unfolding display_name_to_backslashed_escaped_string
backslashed_fits cs = ground (arith, loop-length 2046 cs)

-- No character is a backslash.
abbrev pub HasNoBackslash : List ℕ → Type 0
HasNoBackslash [] = Unit
HasNoBackslash (c ∷ cs) = (c ≢ b'\\') × HasNoBackslash cs

-- A text whose only backslash is its last character makes the removal read past the final zero.
pub backslash_dangling :
    (cs : List ℕ) → HasNoBackslash cs → backslash_less (cs ++ b'\\' ∷ []) ≡ none
unfolding backslash_less
backslash_dangling [] h = refl
backslash_dangling (c ∷ []) h = ground arith
backslash_dangling (c ∷ d ∷ cs) h = ground (arith, backslash_dangling (d ∷ cs) h.1)
