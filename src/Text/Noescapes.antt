-- ===== src/Text/Noescapes.antt =====
-- The tables of the characters that are not escaped, as functions: the static arrays that
-- src/belle_sip_utils.c fills on first use.
use Prim.Native.Char.{code}
use Prim.Native.String.{String}
use belle_sip.Prelude.{ℕ, Bool, false, ◌==◌, ◌&&◌, ◌||◌, List, [], ◌∷◌, leb}

abbrev pub Table : Type 0
Table = ℕ → Bool

abbrev pub empty : Table
empty c = false

-- The bytes of a literal, which is ASCII.
abbrev pub codes : String → List ℕ
codes String.[] = []
codes (String.◌∷◌ c s) = code c ∷ codes s

abbrev pub add_list : Table → List ℕ → Table
add_list t [] c = t c
add_list t (a ∷ allowed) c = a == c || add_list t allowed c

abbrev pub add_range : Table → ℕ → ℕ → Table
add_range t first last c = (leb first c && leb c last) || t c

abbrev pub add_alfanums : Table → Table
add_alfanums t = add_range (add_range (add_range t b'0' b'9') b'A' b'Z') b'a' b'z'

abbrev pub mark : List ℕ
mark = codes "-_.!~*'()"

unfoldable pub sip_uri_username_noescapes : Table
sip_uri_username_noescapes = add_list (add_list (add_alfanums empty) mark) (codes "&=+$,;?/")

unfoldable pub sip_uri_userpasswd_noescapes : Table
sip_uri_userpasswd_noescapes = add_list (add_list (add_alfanums empty) mark) (codes "&=+$,")

unfoldable pub sip_uri_parameter_noescapes : Table
sip_uri_parameter_noescapes =
    add_list (add_list (add_alfanums (add_list empty (codes "[]/:&+$"))) (codes "-.!%*_+`'~")) mark

unfoldable pub sip_uri_header_noescapes : Table
sip_uri_header_noescapes = add_list (add_list (add_alfanums empty) mark) (codes "[]/?:+$")

unfoldable pub generic_uri_query_noescapes : Table
generic_uri_query_noescapes = add_list (add_list (add_alfanums empty) mark) (codes "=&")

unfoldable pub generic_uri_path_noescapes : Table
generic_uri_path_noescapes =
    add_list
      (add_list (add_list (add_list (add_alfanums empty) mark) (codes ":@&=+$,")) (codes ";"))
      (codes "/")
