-- ===== src/Objects/Ownership.antt =====
-- What becomes of the data that is given to an object with a destroy function.
use belle_sip.Prelude.{
  ℕ, ◌+◌, ◌≡◌, ◌∙◌, refl, sym, ap, inl, inr, Bool, Option, some, List, [], ◌∷◌, ◌++◌, Bool-cases,
  Option-cases, arith, String, same_string, same_string_transport, count_if, Reach, here, next,
}
use belle_sip.Lists.Values.{append, find_custom, delete_custom}
use belle_sip.Lists.Keyed.{Fresh, Fresh-find, Fresh-same, DistinctKeys-delete, DistinctKeys-append}
use belle_sip.Objects.Store.{
  Entry, Store, Change, entry, destroyed, data_find, data_unlink, overwrite, data_set, data_remove,
  data_grab, destroy_all, data_clear, cloned, data_merge,
}
use belle_sip.Objects.Lookup.{entry_name, DistinctNames, copied}

module _ {A : Type 0} where
  -- How often a store is to destroy data that passes a test.
  abbrev owned_count : (Option A → Bool) → Store A → ℕ
  owned_count p s = count_if p (destroy_all s)

  count_if-append :
      (p : Option A → Bool) (xs ys : List (Option A))
      → count_if p (xs ++ ys) ≡ count_if p xs + count_if p ys
  count_if-append p [] ys = omega arith
  count_if-append p (x ∷ xs) ys = ground (arith, count_if-append p xs ys)

  owned_count-cons :
      (p : Option A → Bool) (e : Entry A) (s : Store A)
      → owned_count p (e ∷ s) ≡ count_if p (destroyed e) + owned_count p s
  unfolding destroy_all
  owned_count-cons p e s = count_if-append p (destroyed e) (destroy_all s)

  owned_count-append :
      (p : Option A → Bool) (s : Store A) (e : Entry A)
      → owned_count p (append s e) ≡ owned_count p s + count_if p (destroyed e)
  unfolding append destroy_all
  owned_count-append p [] e = omega (arith, count_if-append p (destroyed e) [])
  owned_count-append p (x ∷ s) e =
      omega
        (arith, owned_count-cons p x (append s e), owned_count-cons p x s, owned_count-append p s e)

  owned_count-overwrite :
      (p : Option A → Bool) (n : String) (e x : Entry A) (s : Store A)
      → data_find n s ≡ some x
      → owned_count p (overwrite n e s) + count_if p (destroyed x)
        ≡ owned_count p s + count_if p (destroyed e)
  unfolding data_find overwrite find_custom destroy_all
  owned_count-overwrite p n e x [] f = absurd (ground arith)
  owned_count-overwrite p n e x (y ∷ s) f = elim (Bool-cases (same_string y.name n)) [
    | inl h ↦
        let q : some y ≡ some x = rw h at f in
        let k : y ≡ x = ground (arith, q) in
        rw (h, k) (omega (arith, owned_count-cons p e s, owned_count-cons p x s))
    | inr h ↦ rw h (
        omega (
          arith,
          owned_count-cons p y (overwrite n e s),
          owned_count-cons p y s,
          owned_count-overwrite p n e x s (rw h at f),
        ))
  ]

  owned_count-unlink :
      (p : Option A → Bool) (n : String) (x : Entry A) (s : Store A)
      → data_find n s ≡ some x
      → owned_count p (data_unlink n s) + count_if p (destroyed x) ≡ owned_count p s
  unfolding data_find data_unlink find_custom delete_custom destroy_all
  owned_count-unlink p n x [] f = absurd (ground arith)
  owned_count-unlink p n x (y ∷ s) f = elim (Bool-cases (same_string y.name n)) [
    | inl h ↦
        let q : some y ≡ some x = rw h at f in
        let k : y ≡ x = ground (arith, q) in rw (h, k) (omega (arith, owned_count-cons p x s))
    | inr h ↦ rw h (
        omega (
          arith,
          owned_count-cons p y (data_unlink n s),
          owned_count-cons p y s,
          owned_count-unlink p n x s (rw h at f),
        ))
  ]

  -- A set gives one item, and destroys the one that it replaces.
  owned_count-data_set :
      (p : Option A → Bool) (n : String) (x : Option A) (o : Bool) (s : Store A)
      → let c = data_set n x o s in
        owned_count p c.store + count_if p c.freed
        ≡ owned_count p s + count_if p (destroyed (entry n x o))
  unfolding data_set
  owned_count-data_set p n x o s = elim (Option-cases (data_find n s)) [
    | inl e ↦ rw (e, data_set) (omega (arith, owned_count-append p s (entry n x o)))
    | inr (y, e) ↦ rw (e, data_set) (owned_count-overwrite p n (entry n x o) y s e)
  ]

  -- The copies that a merge gives.
  abbrev pub copies : Option (String → Option A → Option A) → Store A → Store A
  copies f [] = []
  copies f (e ∷ s) = copied f e ∷ copies f s

  owned_count-data_merge :
      (p : Option A → Bool) (f : Option (String → Option A → Option A)) (src dst : Store A)
      → let r = data_merge f src dst in
        owned_count p r.0 + count_if p r.1 ≡ owned_count p dst + owned_count p (copies f src)
  unfolding data_merge destroy_all
  owned_count-data_merge p f [] dst = refl
  owned_count-data_merge p f (e ∷ src) dst =
      let c = data_set e.name (cloned f e) e.owned dst in
      let r = data_merge f src c.store in
      omega (
        arith,
        count_if-append p c.freed r.1,
        owned_count-data_merge p f src c.store,
        owned_count-data_set p e.name (cloned f e) e.owned dst,
        owned_count-cons p (copied f e) (copies f src),
      )

  Fresh-overwrite :
      (k m : String) (e : Entry A) (s : Store A)
      → e.name ≡ m
      → Fresh entry_name k s
      → Fresh entry_name k (overwrite m e s)
  unfolding overwrite
  Fresh-overwrite k m e [] q f = tt
  Fresh-overwrite k m e (x ∷ s) q f = elim (Bool-cases (same_string x.name m)) [
    | inl h ↦
        rw h (ap (λ n. same_string n k) q ∙ sym (same_string_transport x.name m k h) ∙ f.0, f.1)
    | inr h ↦ rw h (f.0, Fresh-overwrite k m e s q f.1)
  ]

  DistinctNames-overwrite :
      (m : String) (e : Entry A) (s : Store A)
      → e.name ≡ m
      → DistinctNames s
      → DistinctNames (overwrite m e s)
  unfolding overwrite
  DistinctNames-overwrite m e [] q d = tt
  DistinctNames-overwrite m e (x ∷ s) q d = elim (Bool-cases (same_string x.name m)) [
    | inl h ↦ rw h (Fresh-same entry_name x.name e.name s (ap (same_string x.name) q ∙ h) d.0, d.1)
    | inr h ↦ rw h (Fresh-overwrite x.name m e s q d.0, DistinctNames-overwrite m e s q d.1)
  ]

  DistinctNames-data_set :
      (n : String) (x : Option A) (o : Bool) (s : Store A)
      → DistinctNames s
      → DistinctNames (data_set n x o s).store
  unfolding data_set data_find
  DistinctNames-data_set n x o s d = elim (Option-cases (data_find n s)) [
    | inl e ↦
        rw (e, data_set)
          (DistinctKeys-append entry_name s (entry n x o) d (Fresh-find entry_name n s e))
    | inr (y, e) ↦ rw (e, data_set) (DistinctNames-overwrite n (entry n x o) s refl d)
  ]

  DistinctNames-data_merge :
      (f : Option (String → Option A → Option A)) (src dst : Store A)
      → DistinctNames dst
      → DistinctNames (data_merge f src dst).0
  unfolding data_merge
  DistinctNames-data_merge f [] dst d = d
  DistinctNames-data_merge f (e ∷ src) dst d =
      DistinctNames-data_merge f src (data_set e.name (cloned f e) e.owned dst).store
        (DistinctNames-data_set e.name (cloned f e) e.owned dst d)

-- The data of an object over its life: what it holds, and what was given to it with a destroy
-- function, destroyed, and grabbed from it, the newest first.
pub record Life (A : Type 0) : Type 0 where
  pub store : Store A
  pub given : List (Option A)
  pub freed : List (Option A)
  pub grabbed : List (Option A)

abbrev pub newborn : {A : Type 0} → Life A
newborn = record { store = []; given = []; freed = []; grabbed = [] }

module _ {A : Type 0} where
  abbrev pub on_set : String → Option A → Bool → Life A → Life A
  on_set n x o l =
      let c = data_set n x o l.store in
      record l {
        store = c.store;
        given = destroyed (entry n x o) ++ l.given;
        freed = c.freed ++ l.freed;
      }

  abbrev pub on_change : Change A → Life A → Life A
  on_change c l = record l { store = c.store; freed = c.freed ++ l.freed }

  abbrev pub on_grab : Entry A → Store A → Life A → Life A
  on_grab e s l = record l { store = s; grabbed = destroyed e ++ l.grabbed }

  abbrev pub on_merge : Option (String → Option A → Option A) → Store A → Life A → Life A
  on_merge f src l =
      let r = data_merge f src l.store in
      record l {
        store = r.0;
        given = destroy_all (copies f src) ++ l.given;
        freed = r.1 ++ l.freed;
      }

  pub data Step : Life A → Life A → Type 0 where
    set : (l : Life A) (n : String) (x : Option A) (o : Bool) → Step l (on_set n x o l)
    remove : (l : Life A) (n : String) → Step l (on_change (data_remove n l.store) l)
    grab :
        (l : Life A) (n : String) (e : Entry A) (s : Store A)
        → data_find n l.store ≡ some e
        → data_grab n l.store ≡ some (s, e.item)
        → Step l (on_grab e s l)
    merge :
        (l : Life A) (f : Option (String → Option A → Option A)) (src : Store A)
        → Step l (on_merge f src l)
    clear : (l : Life A) → Step l (on_change (data_clear l.store) l)

  -- Each name has one entry, and what was given is held, destroyed or grabbed, as often as it was given.
  pub record IsAccounted (l : Life A) : Type 0 where
    pub distinct : DistinctNames l.store
    pub accounts :
        (p : Option A → Bool)
        → count_if p l.given
          ≡ count_if p (destroy_all l.store) + count_if p l.freed + count_if p l.grabbed

  remove-IsAccounted :
      (l : Life A) (n : String) → IsAccounted l → IsAccounted (on_change (data_remove n l.store) l)
  unfolding data_remove data_unlink
  remove-IsAccounted l n a = elim (Option-cases (data_find n l.store)) [
    | inl e ↦ rw (e, data_remove) (record { distinct = a.distinct; accounts = a.accounts })
    | inr (y, e) ↦
        rw (e, data_remove)
          (record {
            distinct = DistinctKeys-delete entry_name n l.store a.distinct;
            accounts = λ p. omega (
              arith,
              a.accounts p,
              owned_count-unlink p n y l.store e,
              count_if-append p (destroyed y) l.freed,
            );
          })
  ]

  unlink-IsAccounted :
      (l : Life A) (n : String) (e : Entry A)
      → data_find n l.store ≡ some e
      → IsAccounted l
      → IsAccounted (on_grab e (data_unlink n l.store) l)
  unfolding data_unlink
  unlink-IsAccounted l n e f a = record {
    distinct = DistinctKeys-delete entry_name n l.store a.distinct;
    accounts = λ p. omega (
      arith,
      a.accounts p,
      owned_count-unlink p n e l.store f,
      count_if-append p (destroyed e) l.grabbed,
    );
  }

  grab-IsAccounted :
      (l : Life A) (n : String) (e : Entry A) (s : Store A)
      → data_find n l.store ≡ some e
      → data_grab n l.store ≡ some (s, e.item)
      → IsAccounted l
      → IsAccounted (on_grab e s l)
  unfolding data_grab
  grab-IsAccounted l n e s f g a =
      let h : some (data_unlink n l.store, e.item) ≡ some (s, e.item) = rw (f, data_grab) at g in
      let k : data_unlink n l.store ≡ s = ground (arith, h) in
      rw (← k) (unlink-IsAccounted l n e f a)

  Step-IsAccounted : (l m : Life A) → Step l m → IsAccounted l → IsAccounted m
  unfolding data_clear destroy_all
  Step-IsAccounted l _ (set _ n x o) a = record {
    distinct = DistinctNames-data_set n x o l.store a.distinct;
    accounts = λ p. omega (
      arith,
      a.accounts p,
      owned_count-data_set p n x o l.store,
      count_if-append p (destroyed (entry n x o)) l.given,
      count_if-append p (data_set n x o l.store).freed l.freed,
    );
  }
  Step-IsAccounted l _ (remove _ n) a = remove-IsAccounted l n a
  Step-IsAccounted l _ (grab _ n e s f g) a = grab-IsAccounted l n e s f g a
  Step-IsAccounted l _ (merge _ f src) a = record {
    distinct = DistinctNames-data_merge f src l.store a.distinct;
    accounts = λ p. omega (
      arith,
      a.accounts p,
      owned_count-data_merge p f src l.store,
      count_if-append p (destroy_all (copies f src)) l.given,
      count_if-append p (data_merge f src l.store).1 l.freed,
    );
  }
  Step-IsAccounted l _ (clear _) a = record {
    distinct = tt;
    accounts = λ p. omega (arith, a.accounts p, count_if-append p (destroy_all l.store) l.freed);
  }

  -- Whatever is done to the data of an object, each name has one entry at most, and what was given with
  -- a destroy function is held, was destroyed or was grabbed, once for each time that it was given.
  pub ownership : (l : Life A) → Reach Step newborn l → IsAccounted l
  unfolding destroy_all
  ownership _ here = record { distinct = tt; accounts = λ p. omega arith }
  ownership m (next {t} r s) = Step-IsAccounted t m s (ownership t r)
