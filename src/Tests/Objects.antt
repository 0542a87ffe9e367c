-- ===== src/Tests/Objects.antt =====
-- Named data at concrete inputs.
use belle_sip.Prelude.{ℕ, refl, true, some, [], ◌∷◌, Reach, here, next}
use belle_sip.Text.Noescapes.{codes}
use belle_sip.Objects.Store.{entry, data_find, data_set, data_grab, data_unlink}
use belle_sip.Objects.Ownership.{
  Life, newborn, on_set, on_grab, Step, set, grab, IsAccounted, ownership,
}
use belle_sip.Objects.Dict.{Dict}

-- Data is given twice under one name and once under another, grabbed and removed.
abbrev first_life : Life ℕ
first_life = on_set (codes "a") (some 2) true (on_set (codes "a") (some 1) true newborn)

abbrev second_life : Life ℕ
second_life = on_grab (entry (codes "a") (some 2) true) [] first_life

first_life-Reach : Reach Step newborn first_life
first_life-Reach =
    next (next here (set newborn (codes "a") (some 1) true))
      (set (on_set (codes "a") (some 1) true newborn) (codes "a") (some 2) true)

ownership_example : IsAccounted second_life
unfolding data_set data_find data_grab data_unlink
ownership_example = ownership second_life (
    next first_life-Reach
      (grab first_life (codes "a") (entry (codes "a") (some 2) true) [] refl refl))

abbrev source : Dict
source = entry (codes "a") (some (codes "1")) true ∷ entry (codes "b") (some (codes "2")) true ∷ []

abbrev target : Dict
target = entry (codes "b") (some (codes "3")) true ∷ entry (codes "c") (some (codes "4")) true ∷ []
