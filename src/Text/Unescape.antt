-- ===== src/Text/Unescape.antt =====
-- belle_sip_get_char and belle_sip_to_unescaped_string, and their round trip with the escaped text.
use belle_sip.Prelude.{
  ℕ, zero, suc, ◌-◌, ◌/◌, ◌%◌, ◌<◌, ◌≡◌, ◌≢◌, ◌∙◌, ap, refl, true, false, ◌==◌, ◌&&◌, Option, none,
  some, List, [], ◌∷◌, ◌++◌, map, inl, inr, ltb, Bool-cases, if◌then◌else◌, arith,
}
use belle_sip.Text.Noescapes.{
  Table, sip_uri_username_noescapes, sip_uri_userpasswd_noescapes, sip_uri_parameter_noescapes,
  sip_uri_header_noescapes, generic_uri_query_noescapes, generic_uri_path_noescapes,
}
use belle_sip.Text.Escape.{hex_digit, escaped_char, escaped}

-- sscanf(…, "%02x", …) at a text: the number that it reads, if it reads one.
abbrev pub Scan : Type 0
Scan = List ℕ → Option ℕ

-- Two digits as %02x prints them are read as the number that they stand for.
abbrev pub ReadsHex : Scan → Type 0
ReadsHex scan =
    (c : ℕ) (rest : List ℕ)
    → c < 256
    → scan (hex_digit (c / 16) ∷ hex_digit (c % 16) ∷ rest) ≡ some c

-- The character that goes out, `none` where the variable behind it was never set, and how many
-- characters it takes. `n` is 3 in every call.
unfoldable pub get_char : Scan → ℕ → List ℕ → ℕ → Option ℕ × ℕ
get_char scan a rest n = if a == b'%' && ltb 2 n then (scan rest, 3) else (some a, 1)

abbrev prepend : Option ℕ → Option (List (Option ℕ)) → Option (List (Option ℕ))
prepend x none = none
prepend x (some l) = some (x ∷ l)

-- The text from the index on, with `k` characters still to pass over; `none` where the index leaves
-- the text and its zero.
unescape_loop : Scan → ℕ → List ℕ → Option (List (Option ℕ))
unfolding get_char
unescape_loop scan zero [] = some []
unescape_loop scan (suc k) [] = none
unescape_loop scan zero (a ∷ rest) =
    let (x, n) = get_char scan a rest 3 in prepend x (unescape_loop scan (n - 1) rest)
unescape_loop scan (suc k) (a ∷ rest) = unescape_loop scan k rest

unfoldable pub to_unescaped_string : Scan → List ℕ → Option (List (Option ℕ))
unfolding unescape_loop
to_unescaped_string scan buff = unescape_loop scan 0 buff

-- The text is made of bytes.
abbrev pub AllBytes : List ℕ → Type 0
AllBytes [] = Unit
AllBytes (c ∷ cs) = (c < 256) × AllBytes cs

unescape_char :
    (scan : Scan) (noescapes : Table) (c : ℕ) (rest : List ℕ)
    → ReadsHex scan
    → noescapes b'%' ≡ false
    → c < 256
    → unescape_loop scan 0 (escaped_char noescapes c ++ rest)
      ≡ prepend (some c) (unescape_loop scan 0 rest)
unfolding unescape_loop escaped_char
unescape_char scan noescapes c rest reads keeps h = elim (Bool-cases (noescapes c)) [
  | inl safe ↦ let other : c ≢ b'%' = λ e. cc (ap noescapes e) in rw safe (ground arith)
  | inr unsafe ↦ rw unsafe (rw (reads c rest h))
]

-- Any table that escapes the percent sign gives a text back: what is escaped as it should be is
-- unescaped to the bytes that it was made from.
pub unescape-escaped :
    (scan : Scan) (noescapes : Table) (cs : List ℕ)
    → ReadsHex scan
    → noescapes b'%' ≡ false
    → AllBytes cs
    → to_unescaped_string scan (escaped noescapes cs) ≡ some (map some cs)
unfolding to_unescaped_string escaped
unescape-escaped scan noescapes [] reads keeps h = refl
unescape-escaped scan noescapes (c ∷ cs) reads keeps h =
    unescape_char scan noescapes c (escaped noescapes cs) reads keeps h.0
    ∙ ap (prepend (some c)) (unescape-escaped scan noescapes cs reads keeps h.1)

-- All the tables but that of the URI parameters escape the percent sign.
pub escapes_percent :
    (sip_uri_username_noescapes b'%' ≡ false)
    × (sip_uri_userpasswd_noescapes b'%' ≡ false)
    × (sip_uri_header_noescapes b'%' ≡ false)
    × (generic_uri_query_noescapes b'%' ≡ false)
    × (generic_uri_path_noescapes b'%' ≡ false)
    × (sip_uri_parameter_noescapes b'%' ≡ true)
unfolding sip_uri_username_noescapes sip_uri_userpasswd_noescapes sip_uri_header_noescapes
    generic_uri_query_noescapes generic_uri_path_noescapes sip_uri_parameter_noescapes
escapes_percent = (refl, refl, refl, refl, refl, refl)

hex_digit_safe : (n : ℕ) → n < 16 → sip_uri_parameter_noescapes (hex_digit n) ≡ true
unfolding sip_uri_parameter_noescapes
hex_digit_safe n h = ground arith

-- A URI parameter that holds a percent sign and two hexadecimal digits is left as it is, and is
-- unescaped to another text: the byte that the digits stand for.
pub parameter_percent :
    (scan : Scan) (c : ℕ)
    → ReadsHex scan
    → c < 256
    → let cs = b'%' ∷ hex_digit (c / 16) ∷ hex_digit (c % 16) ∷ [] in
      (escaped sip_uri_parameter_noescapes cs ≡ cs)
      × (to_unescaped_string scan cs ≡ some (some c ∷ []))
unfolding escaped escaped_char to_unescaped_string
parameter_percent scan c reads h = (
  rw (
    escapes_percent.5,
    hex_digit_safe (c / 16) (omega arith),
    hex_digit_safe (c % 16) (omega arith),
  ),
  rw (reads c [] h),
)
