-- ===== src/Text/Escape.antt =====
-- belle_sip_escape: the loop over the text with its growing block of memory, and its specification.
use belle_sip.Prelude.{
  ℕ, ◌+◌, ◌-◌, ◌/◌, ◌%◌, ◌^◌, max, Option, none, some, List, [], ◌∷◌, ◌++◌, length, ltb,
  if◌then◌else◌,
}
use belle_sip.Text.Buffer.{Buffer, blank, bind, write, write_all, c_string}
use belle_sip.Text.Noescapes.{
  Table, sip_uri_username_noescapes, sip_uri_userpasswd_noescapes, sip_uri_parameter_noescapes,
  sip_uri_header_noescapes, generic_uri_query_noescapes, generic_uri_path_noescapes,
}

-- a - b as a size_t of 64 bits
abbrev pub sub_size : ℕ → ℕ → ℕ
sub_size a b = (a + 2 ^ 64 - b) % 2 ^ 64

-- A digit of %02x.
abbrev pub hex_digit : ℕ → ℕ
hex_digit n = if ltb n 10 then b'0' + n else b'a' + n - 10

-- What snprintf of three characters writes into `size` bytes: as many as fit, and a zero.
abbrev pub fit : ℕ → ℕ → ℕ → ℕ → List ℕ
fit size a b c =
    if ltb size 1
    then []
    else if ltb size 2
    then 0 ∷ []
    else if ltb size 3
    then a ∷ 0 ∷ []
    else if ltb size 4
    then a ∷ b ∷ 0 ∷ []
    else a ∷ b ∷ c ∷ 0 ∷ []

abbrev pub grown_size : ℕ → ℕ → ℕ → ℕ
grown_size orig size index = if ltb size (sub_size index 3) then size + max (orig / 2) 3 else size

abbrev pub grown : ℕ → ℕ → ℕ → Buffer → Buffer
grown orig size index b = if ltb size (sub_size index 3) then b ++ blank (max (orig / 2) 3) else b

-- The index is an int: from 2 ^ 31 on it is negative, and the next write, at the latest that of the
-- final zero, is outside the block.
abbrev pub advance : ℕ → Buffer → Option (Buffer × ℕ)
advance index b = if ltb index (2 ^ 31) then some (b, index) else none

-- One character: the block and the index behind it. `snprintf` answers 3 also where it cuts short.
unfoldable pub escape_char : Table → ℕ → ℕ → ℕ → Buffer → Option (Buffer × ℕ)
escape_char noescapes c size index b =
    if noescapes c
    then bind (write b index c) (advance (index + 1))
    else bind
        (write_all b index
          (fit (sub_size size index) b'%' (hex_digit (c / 16)) (hex_digit (c % 16))))
        (advance (index + 3))

unfoldable pub escape_loop : Table → ℕ → List ℕ → ℕ → ℕ → Buffer → Option Buffer
escape_loop noescapes orig [] size index b = write b index 0
escape_loop noescapes orig (c ∷ cs) size index b =
    bind (escape_char noescapes c (grown_size orig size index) index (grown orig size index b))
      (λ (b', index'). escape_loop noescapes orig cs (grown_size orig size index) index' b')

-- `none` where a byte outside the block is written, or the result is no C string in the block.
unfoldable pub escape : Table → List ℕ → Option (List ℕ)
unfolding escape_loop
escape noescapes buff =
    let n = length buff in bind (escape_loop noescapes n buff n 0 (blank (n + 1))) c_string

-- What the function means to return.
unfoldable pub escaped_char : Table → ℕ → List ℕ
escaped_char noescapes c =
    if noescapes c then c ∷ [] else b'%' ∷ hex_digit (c / 16) ∷ hex_digit (c % 16) ∷ []

unfoldable pub escaped : Table → List ℕ → List ℕ
escaped noescapes [] = []
escaped noescapes (c ∷ cs) = escaped_char noescapes c ++ escaped noescapes cs

unfoldable pub uri_to_escaped_username : List ℕ → Option (List ℕ)
uri_to_escaped_username buff = escape sip_uri_username_noescapes buff

unfoldable pub uri_to_escaped_userpasswd : List ℕ → Option (List ℕ)
uri_to_escaped_userpasswd buff = escape sip_uri_userpasswd_noescapes buff

unfoldable pub uri_to_escaped_parameter : List ℕ → Option (List ℕ)
uri_to_escaped_parameter buff = escape sip_uri_parameter_noescapes buff

unfoldable pub uri_to_escaped_header : List ℕ → Option (List ℕ)
uri_to_escaped_header buff = escape sip_uri_header_noescapes buff

unfoldable pub generic_uri_to_escaped_query : List ℕ → Option (List ℕ)
generic_uri_to_escaped_query buff = escape generic_uri_query_noescapes buff

unfoldable pub generic_uri_to_escaped_path : List ℕ → Option (List ℕ)
generic_uri_to_escaped_path buff = escape generic_uri_path_noescapes buff
