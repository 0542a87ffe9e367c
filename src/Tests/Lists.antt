-- ===== src/Tests/Lists.antt =====
-- Lists at concrete inputs: three links at the addresses 10, 20 and 30, and one of its own at 40.
use belle_sip.Prelude.{ℕ, refl, Bool, ◌==◌, none, some, List, [], ◌∷◌, if◌then◌else◌, arith}
use belle_sip.Lists.Nodes.{node, Heap}
use belle_sip.Lists.Links.{Cell, IsList}
use belle_sip.Lists.Appending.{IsExtended, append_link-IsExtended}
use belle_sip.Lists.Removal.{IsRemoval, remove_link-IsRemoval}

abbrev three : Heap
three p =
    if p == 10
    then some (node none (some 20) 1)
    else if p == 20
    then some (node (some 10) (some 30) 2)
    else if p == 30
    then some (node (some 20) none 3)
    else if p == 40
    then some (node none none 4)
    else none

abbrev cell : ℕ → ℕ → Cell
cell p x = record { at = p; item = x }

abbrev cells : List Cell
cells = cell 10 1 ∷ cell 20 2 ∷ cell 30 3 ∷ []

three-IsList : IsList three (some 10) cells
three-IsList = record {
  begins = refl;
  chain = (refl, (refl, (refl, tt)));
  distinct = ((ground arith, (ground arith, tt)), ((ground arith, tt), (tt, tt)));
}

remove_link-IsRemoval_example :
    IsRemoval three (some 10) (cell 10 1 ∷ []) (cell 20 2) (cell 30 3 ∷ [])
remove_link-IsRemoval_example =
    remove_link-IsRemoval three (some 10) (cell 10 1 ∷ []) (cell 20 2) (cell 30 3 ∷ []) three-IsList

abbrev is_two : ℕ → Bool
is_two n = n == 2

append_link-IsExtended_example : IsExtended 3 three (some 10) cells (cell 40 4)
append_link-IsExtended_example =
    append_link-IsExtended 3 three (some 10) cells (cell 40 4) three-IsList refl
      (ground arith, (ground arith, (ground arith, tt))) (omega arith)
