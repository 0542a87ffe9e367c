-- ===== src/Objects/Store.antt =====
-- The named data of an object: belle_sip_object_data_set and the functions beside it in
-- src/belle_sip_object.c. The entries stand in the order of the list obj->data_store. Memory is always
-- given. What the destroy functions are called with is a result, in the order of the calls.
use belle_sip.Prelude.{
  ℕ, Bool, true, false, Option, none, some, List, [], ◌∷◌, ◌++◌, if◌then◌else◌, String, same_string,
}
use belle_sip.Lists.Values.{append, find_custom, delete_custom, for_each}
use belle_sip.Lists.Keyed.{named}

-- struct belle_sip_object_data; `item` is none for a null pointer, and `owned` says if there is a
-- destroy function.
pub record Entry (A : Type 0) : Type 0 where
  pub name : String
  pub item : Option A
  pub owned : Bool

abbrev pub Store : Type 0 → Type 0
Store A = List (Entry A)

-- The store, what was destroyed, and the result.
pub record Change (A : Type 0) : Type 0 where
  pub store : Store A
  pub freed : List (Option A)
  pub ret : ℕ

module _ {A : Type 0} where
  abbrev pub entry : String → Option A → Bool → Entry A
  entry n x o = record { name = n; item = x; owned = o }

  unfoldable pub data_find : String → Store A → Option (Entry A)
  unfolding find_custom
  data_find n s = find_custom (named (λ e. e.name) n) s

  unfoldable pub data_unlink : String → Store A → Store A
  unfolding delete_custom
  data_unlink n s = delete_custom (named (λ e. e.name) n) s

  -- An assignment to the entry that data_find gives.
  unfoldable pub overwrite : String → Entry A → Store A → Store A
  overwrite n e [] = []
  overwrite n e (x ∷ s) = if same_string x.name n then e ∷ s else x ∷ overwrite n e s

  -- The call of the destroy function of an entry.
  abbrev pub destroyed : Entry A → List (Option A)
  destroyed e = if e.owned then e.item ∷ [] else []

  unfoldable pub data_set : String → Option A → Bool → Store A → Change A
  unfolding data_find overwrite append
  data_set n x o s = elim (data_find n s) [
    | none ↦ record { store = append s (entry n x o); freed = []; ret = 0 }
    | some e ↦ record { store = overwrite n (entry n x o) s; freed = destroyed e; ret = 1 }
  ]

  abbrev item_of : Option (Entry A) → Option A
  item_of none = none
  item_of (some e) = e.item

  unfoldable pub data_get : String → Store A → Option A
  unfolding data_find
  data_get n s = item_of (data_find n s)

  unfoldable pub data_exists : String → Store A → Bool
  unfolding data_find
  data_exists n s = elim (data_find n s) [ none ↦ false | some e ↦ true ]

  unfoldable pub data_remove : String → Store A → Change A
  unfolding data_find data_unlink
  data_remove n s = elim (data_find n s) [
    | none ↦ record { store = s; freed = []; ret = 1 }
    | some e ↦ record { store = data_unlink n s; freed = destroyed e; ret = 0 }
  ]

  -- The store without the entry, and its data. For a name that is missing belle_sip_list_remove_link is
  -- given a null pointer, which it uses.
  unfoldable pub data_grab : String → Store A → Option (Store A × Option A)
  unfolding data_find data_unlink
  data_grab n s = elim (data_find n s) [ none ↦ none | some e ↦ some (data_unlink n s, e.item) ]

  unfoldable pub destroy_all : Store A → List (Option A)
  destroy_all [] = []
  destroy_all (e ∷ s) = destroyed e ++ destroy_all s

  unfoldable pub data_clear : Store A → Change A
  unfolding destroy_all
  data_clear s = record { store = []; freed = destroy_all s; ret = 0 }

  -- The clone function, if there is one, on the data of an entry.
  abbrev pub cloned : Option (String → Option A → Option A) → Entry A → Option A
  cloned none e = e.item
  cloned (some f) e = f e.name e.item

  -- The entries of the first store are set in the second, which is that of another object, one by one.
  unfoldable pub data_merge :
      Option (String → Option A → Option A) → Store A → Store A → Store A × List (Option A)
  unfolding data_set
  data_merge f [] dst = (dst, [])
  data_merge f (e ∷ src) dst =
      let c = data_set e.name (cloned f e) e.owned dst in
      let r = data_merge f src c.store in (r.0, c.freed ++ r.1)

  unfoldable pub data_clone :
      Option (String → Option A → Option A) → Store A → Store A → Store A × List (Option A)
  unfolding data_merge data_clear
  data_clone f src dst =
      let c = data_clear dst in let r = data_merge f src c.store in (r.0, c.freed ++ r.1)

  unfoldable pub data_foreach {κ} : {S : Type κ} → (String → Option A → S → S) → Store A → S → S
  unfolding for_each
  data_foreach f s w = for_each (λ e. f e.name e.item) s w
