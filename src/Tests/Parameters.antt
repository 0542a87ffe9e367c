-- ===== src/Tests/Parameters.antt =====
-- Parameters at concrete inputs: "lr" without a value, and "transport" of the value "tcp".
use belle_sip.Prelude.{
  ◌≡◌, refl, true, false, none, some, List, [], ◌∷◌, if◌then◌else◌, String, same_string, here, next,
  arith,
}
use belle_sip.Text.Noescapes.{codes}
use belle_sip.Parameters.Defs.{
  Pair, pair, Parameters, ok, marshal, set, set_parameter, remove_parameter, get_parameter,
  has_parameter,
}
use belle_sip.Parameters.Lookup.{
  IsWf, put, take_out, no_parameters, parameters_invariant, parameters_map,
}
use belle_sip.Parameters.Printing.{at_end}
use belle_sip.Parameters.Parsing.{params_of, set_total, set-marshal}

abbrev pairs : List Pair
pairs = pair (codes "lr") none ∷ pair (codes "transport") (some (codes "tcp")) ∷ []

abbrev two : Parameters
two = params_of pairs

two-IsWf : IsWf two
two-IsWf = record { in_step = refl; distinct = ((refl, tt), (tt, tt)) }

parameters_invariant_example :
    IsWf (remove_parameter (codes "lr") (set_parameter (codes "lr") none no_parameters))
parameters_invariant_example =
    parameters_invariant
      (remove_parameter (codes "lr") (set_parameter (codes "lr") none no_parameters))
      (next (next here (put no_parameters (codes "lr") none))
        (take_out (set_parameter (codes "lr") none no_parameters) (codes "lr")))

parameters_map_example :
    (get_parameter (codes "lr") (set_parameter (codes "transport") (some (codes "tls")) two) ≡ (
      if same_string (codes "transport") (codes "lr")
      then some (codes "tls")
      else get_parameter (codes "lr") two))
    × (has_parameter (codes "lr") (set_parameter (codes "transport") (some (codes "tls")) two) ≡ (
        if same_string (codes "transport") (codes "lr")
        then true
        else has_parameter (codes "lr") two))
    × (get_parameter (codes "lr") (remove_parameter (codes "transport") two) ≡ (
        if same_string (codes "transport") (codes "lr")
        then none
        else get_parameter (codes "lr") two))
    × (has_parameter (codes "lr") (remove_parameter (codes "transport") two) ≡ (
        if same_string (codes "transport") (codes "lr")
        then false
        else has_parameter (codes "lr") two))
parameters_map_example =
    parameters_map (codes "transport") (codes "lr") (some (codes "tls")) two two-IsWf

set_total_example : (q : Parameters) × (set 4 (some (codes "a=;b")) two ≡ some q)
set_total_example = set_total 4 (codes "a=;b") two (omega arith)

set-marshal_example :
    (t : String) × (marshal 40 two (at_end []) ≡ (ok, at_end (b';' ∷ t)))
    × (set 9 (some t) no_parameters ≡ some two)
set-marshal_example =
    set-marshal 40 9 two no_parameters (pair (codes "lr") none)
      (pair (codes "transport") (some (codes "tcp")) ∷ []) two-IsWf refl
      (
        record {
          first = b'l';
          others = codes "r";
          not_empty = refl;
          no_semicolon = ground arith;
          no_equal = ground arith;
          value_fits = tt;
        },
        (
          record {
            first = b't';
            others = codes "ransport";
            not_empty = refl;
            no_semicolon = ground arith;
            no_equal = ground arith;
            value_fits = ground arith;
          },
          tt,
        ),
      )
      (omega arith) (omega arith)
