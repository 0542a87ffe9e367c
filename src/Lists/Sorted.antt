-- ===== src/Lists/Sorted.antt =====
-- What the functions on lists compute, against the libraries' lists.
use mathlib.Core.List.{append_assoc, append-nil}
use belle_sip.Prelude.{
  ℕ, ◌+◌, ◌≡◌, ◌∙◌, refl, ap, sym, inl, inr, ◌⊎◌, Bool, true, false, none, some, List, [], ◌∷◌,
  ◌++◌, length, Bool-cases, arith,
}
use belle_sip.Lists.Values.{
  append, concat, size_from, size, index_from, find_custom, delete_custom, insert_sorted, copy_onto,
  copy,
}

module _ {ℓ} {A : Type ℓ} where
  pub append_lem : (l : List A) (x : A) → append l x ≡ l ++ x ∷ []
  unfolding append
  append_lem [] x = refl
  append_lem (y ∷ l) x = ap (◌∷◌ y) (append_lem l x)

  pub concat_lem : (l m : List A) → concat l m ≡ l ++ m
  unfolding concat
  concat_lem [] m = refl
  concat_lem (x ∷ l) m = ap (◌∷◌ x) (concat_lem l m)

  size_from_lem : (n : ℕ) (l : List A) → size_from n l ≡ n + length l
  unfolding size_from
  size_from_lem n [] = omega arith
  size_from_lem n (x ∷ l) = omega (arith, size_from_lem (n + 1) l)

  pub size_lem : (l : List A) → size l ≡ length l
  unfolding size
  size_lem l = omega (arith, size_from_lem 0 l)

  copy_onto_lem : (m l : List A) → copy_onto m l ≡ m ++ l
  unfolding copy_onto
  copy_onto_lem m [] = sym (append-nil m)
  copy_onto_lem m (x ∷ l) =
      copy_onto_lem (append m x) l ∙ ap (λ k. k ++ l) (append_lem m x) ∙ append_assoc m (x ∷ []) l

  pub copy_lem : (l : List A) → copy l ≡ l
  unfolding copy
  copy_lem l = copy_onto_lem [] l

  -- No element of a list before the one that is found passes the test.
  abbrev pub NoneOf : (A → Bool) → List A → Type 0
  NoneOf p [] = Unit
  NoneOf p (x ∷ l) = (p x ≡ false) × NoneOf p l

  -- The list splits at the first element that passes the test, which is the one that is found, whose
  -- index is given (counted from i) and that a deletion leaves out.
  pub record Found (p : A → Bool) (i : ℕ) (l before : List A) (x : A) (after : List A)
      : Type ℓ where
    pub whole : l ≡ before ++ x ∷ after
    pub earlier : NoneOf p before
    pub passes : p x ≡ true
    pub found : find_custom p l ≡ some x
    pub deleted : delete_custom p l ≡ before ++ after
    pub indexed : index_from i p l ≡ some (i + length before)

  -- No element passes the test: none is found or deleted.
  pub record Absent (p : A → Bool) (i : ℕ) (l : List A) : Type ℓ where
    pub all_fail : NoneOf p l
    pub not_found : find_custom p l ≡ none
    pub not_deleted : delete_custom p l ≡ l
    pub not_indexed : index_from i p l ≡ none

  search_from :
      (p : A → Bool) (i : ℕ) (l : List A)
      → Absent p i l ⊎ ((before : List A) × (x : A) × (after : List A) × Found p i l before x after)
  unfolding find_custom delete_custom index_from
  search_from p i [] = inl (ground arith)
  search_from p i (x ∷ l) = elim (Bool-cases (p x)) [
    | inl yes' ↦ inr (
      [],
      x,
      l,
      record {
        whole = refl;
        earlier = tt;
        passes = yes';
        found = rw yes';
        deleted = rw yes';
        indexed = rw yes' (ground arith);
      },
    )
    | inr no' ↦ elim (search_from p (i + 1) l) [
      | inl a ↦ inl (record {
        all_fail = (no', a.all_fail);
        not_found = rw no' a.not_found;
        not_deleted = rw no' (ap (◌∷◌ x) a.not_deleted);
        not_indexed = rw no' a.not_indexed;
      })
      | inr (b, y, c, f) ↦ inr (
        x ∷ b,
        y,
        c,
        record {
          whole = ap (◌∷◌ x) f.whole;
          earlier = (no', f.earlier);
          passes = f.passes;
          found = rw no' f.found;
          deleted = rw no' (ap (◌∷◌ x) f.deleted);
          indexed = rw no' (f.indexed ∙ ap some (omega arith));
        },
      )
    ]
  ]

  -- Finding, deleting and numbering agree on one link, the first whose data passes the test, or find
  -- that there is none.
  pub find_delete_index :
      (p : A → Bool) (l : List A)
      → Absent p 0 l ⊎ ((before : List A) × (x : A) × (after : List A) × Found p 0 l before x after)
  find_delete_index p l = search_from p 0 l

  -- Each element is in order with the one that follows it.
  abbrev pub IsSorted : (A → A → Bool) → List A → Type 0
  IsSorted le [] = Unit
  IsSorted le (x ∷ []) = Unit
  IsSorted le (x ∷ y ∷ l) = (le x y ≡ true) × IsSorted le (y ∷ l)

  -- The inserted element stands behind all elements of `before` and not behind the first of `after`.
  abbrev pub Precedes : (A → A → Bool) → A → List A → Type 0
  Precedes le x [] = Unit
  Precedes le x (y ∷ l) = le x y ≡ true

  pub insert_sorted_split :
      (le : A → A → Bool) (l : List A) (x : A)
      → (before : List A) × (after : List A) × (l ≡ before ++ after)
        × (insert_sorted le l x ≡ before ++ x ∷ after)
        × NoneOf (le x) before
        × Precedes le x after
  unfolding insert_sorted
  insert_sorted_split le [] x = ([], [], refl, refl, tt, tt)
  insert_sorted_split le (y ∷ l) x = elim (Bool-cases (le x y)) [
    | inl first ↦ ([], y ∷ l, refl, rw first, tt, first)
    | inr later ↦
        let (b, a, e, f, g, h) = insert_sorted_split le l x in
        (y ∷ b, a, ap (◌∷◌ y) e, rw later (ap (◌∷◌ y) f), (later, g), h)
  ]

  -- A list that is in order stays so, if the order is total.
  pub insert_sorted-IsSorted :
      (le : A → A → Bool)
      → ((x y : A) → le x y ≡ false → le y x ≡ true)
      → (l : List A) (x : A) → IsSorted le l
      → IsSorted le (insert_sorted le l x)
  unfolding insert_sorted
  insert_sorted-IsSorted le total [] x s = tt
  insert_sorted-IsSorted le total (y ∷ []) x s = ground (arith, total x y)
  insert_sorted-IsSorted le total (y ∷ z ∷ l) x s =
      ground (arith, total x y, total x z, insert_sorted-IsSorted le total (z ∷ l) x s.1)
