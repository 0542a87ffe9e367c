-- ===== src/Parameters/Defs.antt =====
-- belle_sip_parameters_t and the functions of src/belle_sip_parameters.c, with the pairs and
-- belle_sip_snprintf of src/belle_sip_utils.c. Names are not null pointers.
use belle_sip.Prelude.{
  ℕ, zero, suc, ◌+◌, ◌-◌, Bool, true, false, ◌==◌, Option, none, some, List, [], ◌∷◌, ◌++◌, length,
  take, leb, if◌then◌else◌, String, same_string,
}
use belle_sip.Lists.Values.{append, find_custom, delete_custom}
use belle_sip.Lists.Keyed.{named}

-- belle_sip_param_pair_t; a parameter without a value has a null pointer.
pub record Pair : Type 0 where
  pub name : String
  pub value : Option String

abbrev pub pair : String → Option String → Pair
pair n v = record { name = n; value = v }

abbrev pub pair_name : Pair → String
pair_name p = p.name

-- paramnames_list holds the pointers to the names of the pairs.
pub record Parameters : Type 0 where
  pub param_list : List Pair
  pub paramnames_list : List String

abbrev pub itself : String → String
itself n = n

unfoldable pub clean : Parameters → Parameters
clean p = record { param_list = []; paramnames_list = [] }

-- In both lists the link of the name is taken out, if there is one.
unfoldable pub set_parameter : String → Option String → Parameters → Parameters
unfolding append delete_custom
set_parameter n v p = record {
  param_list = append (delete_custom (named pair_name n) p.param_list) (pair n v);
  paramnames_list = append (delete_custom (named itself n) p.paramnames_list) n;
}

unfoldable pub remove_parameter : String → Parameters → Parameters
unfolding find_custom delete_custom
remove_parameter n p = elim (find_custom (named itself n) p.paramnames_list) [
  | none ↦ p
  | some m ↦ record {
    param_list = delete_custom (named pair_name n) p.param_list;
    paramnames_list = delete_custom (named itself n) p.paramnames_list;
  }
]

unfoldable pub copy_pairs : List Pair → Parameters → Parameters
unfolding set_parameter
copy_pairs [] p = p
copy_pairs (x ∷ l) p = copy_pairs l (set_parameter x.name x.value p)

unfoldable pub copy_parameters_from : Parameters → Parameters → Parameters
unfolding copy_pairs
copy_parameters_from orig p = copy_pairs orig.param_list p

abbrev value_of : Option Pair → Option String
value_of none = none
value_of (some x) = x.value

-- The comparison of names is strcmp or strcasecmp.
unfoldable pub get_parameter_base : (String → String → Bool) → String → Parameters → Option String
unfolding find_custom
get_parameter_base same n p = value_of (find_custom (λ x. same x.name n) p.param_list)

unfoldable pub get_parameter : String → Parameters → Option String
unfolding get_parameter_base
get_parameter n p = get_parameter_base same_string n p

unfoldable pub has_parameter : String → Parameters → Bool
unfolding find_custom
has_parameter n p = elim (find_custom (named pair_name n) p.param_list) [
  | none ↦ false
  | some x ↦ true
]

pub data ErrorCode : Type 0 where
  ok buffer_overflow : ErrorCode

-- What stands in a buffer before its final zero, and the offset.
pub record Printed : Type 0 where
  pub text : String
  pub offset : ℕ

-- `piece` is what the format and its arguments give, shorter than 2 ^ 31.
unfoldable pub print : ℕ → String → Printed → ErrorCode × Printed
print size piece b =
    let left = size - b.offset in
    if leb left (length piece)
    then (buffer_overflow, record { text = b.text ++ take (left - 1) piece; offset = size })
    else (ok, record { text = b.text ++ piece; offset = b.offset + length piece })

abbrev pub piece_of : Pair → String
piece_of x = elim x.value [ some v ↦ b';' ∷ x.name ++ b'=' ∷ v | none ↦ b';' ∷ x.name ]

unfoldable pub marshal_pairs : ℕ → List Pair → Printed → ErrorCode × Printed
unfolding print
marshal_pairs size [] b = (ok, b)
marshal_pairs size (x ∷ l) b =
    let r = print size (piece_of x) b in
    let rest = marshal_pairs size l r.1 in elim r.0 [ ok ↦ rest | buffer_overflow ↦ r ]

unfoldable pub marshal : ℕ → Parameters → Printed → ErrorCode × Printed
unfolding marshal_pairs
marshal size p b = marshal_pairs size p.param_list b

-- What stands before the first `c`, all of it if there is none, and what follows `c`.
unfoldable pub before : ℕ → String → String
before c [] = []
before c (x ∷ s) = if x == c then [] else x ∷ before c s

unfoldable pub after : ℕ → String → Option String
after c [] = none
after c (x ∷ s) = if x == c then some s else after c s

-- One round of the loop: `current` up to its end is a name, with a value behind the first '='.
unfoldable pub parse_one : String → Parameters → Parameters
unfolding before after set_parameter
parse_one current p = set_parameter (before b'=' current) (after b'=' current) p

-- The end of the string, or what follows the next ';'.
abbrev pub next_param : String → String
next_param s = elim (after b';' s) [ none ↦ [] | some r ↦ r ]

-- The loop; on fuel.
unfoldable pub parse : ℕ → String → Parameters → Option Parameters
unfolding parse_one before after
parse zero current p = none
parse (suc k) current p =
    let p' = parse_one (before b';' current) p in
    let rest = parse k (next_param current) p' in
    elim (next_param current) [ [] ↦ some p' | x ∷ s ↦ rest ]

-- A null pointer is none.
unfoldable pub set : ℕ → Option String → Parameters → Option Parameters
unfolding parse clean
set fuel none p = some (clean p)
set fuel (some []) p = some (clean p)
set fuel (some (x ∷ s)) p = parse fuel (x ∷ s) (clean p)
