-- ===== src/Tests/Text.antt =====
-- Texts at concrete inputs.
use belle_sip.Prelude.{
  ℕ, ◌≡◌, ◌+◌, ◌-◌, ◌*◌, ◌/◌, ◌%◌, ◌<◌, ◌⊎◌, ◌++◌, refl, none, some, List, [], ◌∷◌, map, ltb,
  if◌then◌else◌, arith,
}
use belle_sip.Text.Noescapes.{codes, sip_uri_username_noescapes, sip_uri_header_noescapes}
use belle_sip.Text.Escape.{hex_digit, escape, escaped, escaped_char}
use belle_sip.Text.EscapeBounds.{escape_correct}
use belle_sip.Text.EscapeOverflow.{escape_overflow}
use belle_sip.Text.Unescape.{Scan, ReadsHex, to_unescaped_string, unescape-escaped}
use belle_sip.Text.Backslash.{
  backslash_less, display_name_to_backslashed_escaped_string, backslash_roundtrip,
}

escape_correct_example : escape sip_uri_username_noescapes (codes "bob@") ≡ some (codes "bob%40")
unfolding escaped escaped_char sip_uri_username_noescapes
escape_correct_example =
    escape_correct sip_uri_username_noescapes (codes "bob@") (ground arith) (ground arith)
      (ground arith)

escape_overflow_example : escape sip_uri_username_noescapes (codes "@@") ≡ none
unfolding sip_uri_username_noescapes
escape_overflow_example =
    escape_overflow sip_uri_username_noescapes (codes "@@") (refl, (refl, tt)) (omega arith)
      (omega arith)

-- A reader of two lower-case digits.
abbrev digit_value : ℕ → ℕ
digit_value d = if ltb d b'a' then d - b'0' else d + 10 - b'a'

abbrev scan_two : Scan
scan_two (a ∷ b ∷ rest) = some (16 * digit_value a + digit_value b)
scan_two _ = none

digit_value-hex_digit : (n : ℕ) → n < 16 → digit_value (hex_digit n) ≡ n
digit_value-hex_digit n h = ground arith

scan_two-ReadsHex : ReadsHex scan_two
scan_two-ReadsHex c rest h = ground (
  arith,
  digit_value-hex_digit (c / 16) (omega arith),
  digit_value-hex_digit (c % 16) (omega arith),
)

unescape-escaped_example :
    to_unescaped_string scan_two (escaped sip_uri_header_noescapes (codes "a&%b"))
    ≡ some (map some (codes "a&%b"))
unfolding sip_uri_header_noescapes
unescape-escaped_example =
    unescape-escaped scan_two sip_uri_header_noescapes (codes "a&%b") scan_two-ReadsHex refl
      (ground arith)

backslash_roundtrip_example :
    (p : List ℕ) × (q : List ℕ) × (codes "\"Al\"" ≡ p ++ q)
    × (backslash_less (display_name_to_backslashed_escaped_string (codes "\"Al\"")) ≡ some p)
    × ((q ≡ []) ⊎ (2046 < 6))
backslash_roundtrip_example = backslash_roundtrip (codes "\"Al\"")
