-- ===== src/Prelude/Histories.antt =====
-- Histories: the reflexive and transitive closure of a step relation.
module _ {T : Type 0} (R : T → T → Type 0) where
  pub data Reach (s : T) : T → Type 0 where
    here : Reach s s
    next : {t u : T} → Reach s t → R t u → Reach s u
