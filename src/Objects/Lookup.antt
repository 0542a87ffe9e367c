-- ===== src/Objects/Lookup.antt =====
-- The named data of an object is a finite map.
use belle_sip.Prelude.{
  ◌≡◌, ◌∙◌, refl, sym, ap, inl, inr, Bool, true, false, Option, none, some, [], ◌∷◌, if◌then◌else◌,
  Bool-cases, Option-cases, arith, String, same_string, same_string_sym, same_string_transport,
}
use belle_sip.Lists.Values.{find_custom}
use belle_sip.Lists.Keyed.{
  DistinctKeys, find-Fresh, Fresh-find, find-delete_other, delete-Fresh, Fresh-same,
  find-append_other, find-append_same,
}
use belle_sip.Objects.Store.{
  Entry, Store, entry, data_find, data_unlink, overwrite, data_set, data_get, cloned, data_merge,
  data_remove,
}

module _ {A : Type 0} where
  -- The names of a store.
  abbrev pub entry_name : Entry A → String
  entry_name e = e.name

  abbrev pub DistinctNames : Store A → Type 0
  DistinctNames s = DistinctKeys entry_name s

  find-overwrite_other :
      (m n : String) (e : Entry A) (s : Store A)
      → e.name ≡ m
      → same_string m n ≡ false
      → data_find n (overwrite m e s) ≡ data_find n s
  unfolding data_find overwrite find_custom
  find-overwrite_other m n e [] k h = refl
  find-overwrite_other m n e (x ∷ s) k h = elim (Bool-cases (same_string x.name m)) [
    | inl a ↦ rw (a, k, h, same_string_transport x.name m n a ∙ h) refl
    | inr a ↦
        rw a
          (ap (λ o. if same_string x.name n then some x else o) (find-overwrite_other m n e s k h))
  ]

  find-overwrite_same :
      (m n : String) (e x : Entry A) (s : Store A)
      → same_string m n ≡ true
      → e.name ≡ m
      → data_find m s ≡ some x
      → data_find n (overwrite m e s) ≡ some e
  unfolding data_find overwrite find_custom
  find-overwrite_same m n e x [] h k f = absurd (ground arith)
  find-overwrite_same m n e x (y ∷ s) h k f = elim (Bool-cases (same_string y.name m)) [
    | inl a ↦ rw (a, k, h) refl
    | inr a ↦
        let o : same_string y.name n ≡ false =
          same_string_sym y.name n
          ∙ sym (same_string_transport m n y.name h)
          ∙ same_string_sym m y.name
          ∙ a in
        rw (a, o) (find-overwrite_same m n e x s h k (rw a at f))
  ]

  -- What is found after an entry was set.
  pub find-data_set :
      (m : String) (x : Option A) (o : Bool) (n : String) (s : Store A)
      → data_find n (data_set m x o s).store
        ≡ (if same_string m n then some (entry m x o) else data_find n s)
  unfolding data_set data_find
  find-data_set m x o n s = elim (Option-cases (data_find m s)) [
    | inl e ↦ elim (Bool-cases (same_string m n)) [
      | inl h ↦
          rw (e, h, data_set)
            (find-append_same entry_name n s (entry m x o)
              (Fresh-same entry_name m n s h (Fresh-find entry_name m s e)) h)
      | inr h ↦ rw (e, h, data_set) (find-append_other entry_name n s (entry m x o) h)
    ]
    | inr (y, e) ↦ elim (Bool-cases (same_string m n)) [
      | inl h ↦ rw (e, h, data_set) (find-overwrite_same m n (entry m x o) y s h refl e)
      | inr h ↦ rw (e, h, data_set) (find-overwrite_other m n (entry m x o) s refl h)
    ]
  ]

  find-data_remove :
      (m n : String) (s : Store A)
      → DistinctNames s
      → data_find n (data_remove m s).store ≡ (if same_string m n then none else data_find n s)
  unfolding data_remove data_find data_unlink
  find-data_remove m n s d = elim (Option-cases (data_find m s)) [
    | inl e ↦ elim (Bool-cases (same_string m n)) [
      | inl h ↦
          rw (e, h, data_remove)
            (find-Fresh entry_name n s
              (Fresh-same entry_name m n s h (Fresh-find entry_name m s e)))
      | inr h ↦ rw (e, h, data_remove) refl
    ]
    | inr (y, e) ↦ elim (Bool-cases (same_string m n)) [
      | inl h ↦
          rw (e, h, data_remove)
            (find-Fresh entry_name n (data_unlink m s)
              (Fresh-same entry_name m n (data_unlink m s) h (delete-Fresh entry_name m s d)))
      | inr h ↦ rw (e, h, data_remove) (find-delete_other entry_name m n s h)
    ]
  ]

  -- In a store without duplicates, data that is set is what is got under its name until it is removed,
  -- and neither a set nor a removal changes what is got under another name.
  pub store_map :
      (m n : String) (x : Option A) (o : Bool) (s : Store A)
      → DistinctNames s
      → (data_get n (data_set m x o s).store ≡ (if same_string m n then x else data_get n s))
        × (data_get n (data_remove m s).store ≡ (if same_string m n then none else data_get n s))
  unfolding data_get
  store_map m n x o s d = elim (Bool-cases (same_string m n)) [
    | inl h ↦ rw (find-data_set m x o n s, find-data_remove m n s d, h) (refl, refl)
    | inr h ↦ rw (find-data_set m x o n s, find-data_remove m n s d, h) (refl, refl)
  ]

  -- The entry that a merge makes of one of the first store.
  abbrev pub copied : Option (String → Option A → Option A) → Entry A → Entry A
  copied f e = entry e.name (cloned f e) e.owned

  abbrev pub over :
      Option (String → Option A → Option A) → Option (Entry A) → Option (Entry A) → Option (Entry A)
  over f none e = e
  over f (some e) _ = some (copied f e)

  -- After a merge the entry of a name is the copy of the first store's, if it has one, and else what the
  -- second store had, if the first store has no duplicates.
  pub find-data_merge :
      (f : Option (String → Option A → Option A)) (src dst : Store A) (n : String)
      → DistinctNames src
      → data_find n (data_merge f src dst).0 ≡ over f (data_find n src) (data_find n dst)
  unfolding data_merge data_find find_custom
  find-data_merge f [] dst n d = refl
  find-data_merge f (e ∷ src) dst n d =
      let dst' = (data_set e.name (cloned f e) e.owned dst).store in
      let later = find-data_merge f src dst' n d.1 in
      elim (Bool-cases (same_string e.name n)) [
        | inl h ↦
            let gone = find-Fresh entry_name n src (Fresh-same entry_name e.name n src h d.0) in
            rw h (
              later
              ∙ ap (λ t. over f t (data_find n dst')) gone
              ∙ find-data_set e.name (cloned f e) e.owned n dst
              ∙ ap (λ b. if b then some (copied f e) else data_find n dst) h)
        | inr h ↦ rw h (
            later
            ∙ ap (over f (data_find n src)) (
                find-data_set e.name (cloned f e) e.owned n dst
                ∙ ap (λ b. if b then some (copied f e) else data_find n dst) h))
      ]
