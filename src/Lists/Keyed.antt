-- ===== src/Lists/Keyed.antt =====
-- Lists whose elements have names, searched by belle_sip_list_find_custom with a comparison of names.
use belle_sip.Prelude.{
  ◌≡◌, ◌∙◌, refl, sym, ap, inl, inr, Bool, true, false, none, some, List, [], ◌∷◌, if◌then◌else◌,
  Bool-cases, arith, String, same_string, same_string_sym, same_string_transport,
}
use belle_sip.Lists.Values.{append, find_custom, delete_custom}

module _ {ℓ} {A : Type ℓ} (key : A → String) where
  -- strcmp(key,name)==0
  abbrev pub named : String → A → Bool
  named n x = same_string (key x) n

  abbrev pub Fresh : String → List A → Type 0
  Fresh n [] = Unit
  Fresh n (x ∷ l) = (same_string (key x) n ≡ false) × Fresh n l

  abbrev pub DistinctKeys : List A → Type 0
  DistinctKeys [] = Unit
  DistinctKeys (x ∷ l) = Fresh (key x) l × DistinctKeys l

  pub find-Fresh : (n : String) (l : List A) → Fresh n l → find_custom (named n) l ≡ none
  unfolding find_custom
  find-Fresh n [] f = refl
  find-Fresh n (x ∷ l) f = rw (f.0) (find-Fresh n l f.1)

  pub Fresh-find : (n : String) (l : List A) → find_custom (named n) l ≡ none → Fresh n l
  unfolding find_custom
  Fresh-find n [] e = tt
  Fresh-find n (x ∷ l) e = elim (Bool-cases (same_string (key x) n)) [
    | inl h ↦ absurd (ground (arith, h, rw h at e))
    | inr h ↦ (h, Fresh-find n l (rw h at e))
  ]

  pub find_named :
      (n : String) (l : List A) (x : A)
      → find_custom (named n) l ≡ some x
      → same_string (key x) n ≡ true
  unfolding find_custom
  find_named n [] x e = absurd (ground arith)
  find_named n (y ∷ l) x e = elim (Bool-cases (same_string (key y) n)) [
    | inl h ↦ (let q : some y ≡ some x = rw h at e in ground (arith, h, q))
    | inr h ↦ find_named n l x (rw h at e)
  ]

  -- Two names that are not the same are not the same as one name.
  apart : (x : A) (m n : String) → same_string m n ≡ false → named m x ≡ true → named n x ≡ false
  apart x m n h e = same_string_transport (key x) m n e ∙ h

  pub find-delete_other :
      (m n : String) (l : List A)
      → same_string m n ≡ false
      → find_custom (named n) (delete_custom (named m) l) ≡ find_custom (named n) l
  unfolding find_custom delete_custom
  find-delete_other m n [] h = refl
  find-delete_other m n (x ∷ l) h = elim (Bool-cases (same_string (key x) m)) [
    | inl e ↦ rw (e, apart x m n h e) refl
    | inr e ↦ rw e (ap (λ o. if named n x then some x else o) (find-delete_other m n l h))
  ]

  pub Fresh-delete : (n m : String) (l : List A) → Fresh n l → Fresh n (delete_custom (named m) l)
  unfolding delete_custom
  Fresh-delete n m [] f = tt
  Fresh-delete n m (x ∷ l) f = elim (Bool-cases (same_string (key x) m)) [
    | inl e ↦ rw e (f.1)
    | inr e ↦ rw e ((f.0, Fresh-delete n m l f.1))
  ]

  pub DistinctKeys-delete :
      (m : String) (l : List A) → DistinctKeys l → DistinctKeys (delete_custom (named m) l)
  unfolding delete_custom
  DistinctKeys-delete m [] d = tt
  DistinctKeys-delete m (x ∷ l) d = elim (Bool-cases (same_string (key x) m)) [
    | inl e ↦ rw e (d.1)
    | inr e ↦ rw e ((Fresh-delete (key x) m l d.0, DistinctKeys-delete m l d.1))
  ]

  -- A list keeps what is fresh when the name is the same as another.
  pub Fresh-same : (m n : String) (l : List A) → same_string m n ≡ true → Fresh m l → Fresh n l
  Fresh-same m n [] e f = tt
  Fresh-same m n (x ∷ l) e f = (
    same_string_sym (key x) n
        ∙ sym (same_string_transport m n (key x) e)
        ∙ same_string_sym m (key x)
        ∙ f.0,
    Fresh-same m n l e f.1,
  )

  -- Without duplicates the name is gone after its deletion.
  pub delete-Fresh :
      (m : String) (l : List A) → DistinctKeys l → Fresh m (delete_custom (named m) l)
  unfolding delete_custom
  delete-Fresh m [] d = tt
  delete-Fresh m (x ∷ l) d = elim (Bool-cases (same_string (key x) m)) [
    | inl e ↦ rw e (Fresh-same (key x) m l e d.0)
    | inr e ↦ rw e ((e, delete-Fresh m l d.1))
  ]

  Fresh-append :
      (n : String) (l : List A) (x : A)
      → Fresh n l
      → same_string (key x) n ≡ false
      → Fresh n (append l x)
  unfolding append
  Fresh-append n [] x f h = (h, tt)
  Fresh-append n (y ∷ l) x f h = (f.0, Fresh-append n l x f.1 h)

  pub DistinctKeys-append :
      (l : List A) (x : A) → DistinctKeys l → Fresh (key x) l → DistinctKeys (append l x)
  unfolding append
  DistinctKeys-append [] x d f = (tt, tt)
  DistinctKeys-append (y ∷ l) x d f = (
    Fresh-append (key y) l x d.0 (same_string_sym (key x) (key y) ∙ f.0),
    DistinctKeys-append l x d.1 f.1,
  )

  pub find-append_other :
      (n : String) (l : List A) (x : A)
      → named n x ≡ false
      → find_custom (named n) (append l x) ≡ find_custom (named n) l
  unfolding find_custom append
  find-append_other n [] x h = rw h refl
  find-append_other n (y ∷ l) x h =
      ap (λ o. if named n y then some y else o) (find-append_other n l x h)

  pub find-append_same :
      (n : String) (l : List A) (x : A)
      → Fresh n l
      → named n x ≡ true
      → find_custom (named n) (append l x) ≡ some x
  unfolding find_custom append
  find-append_same n [] x f h = rw h refl
  find-append_same n (y ∷ l) x f h = rw (f.0) (find-append_same n l x f.1 h)
