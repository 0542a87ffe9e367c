-- ===== src/Lists/Values.antt =====
-- belle_sip_list_t of src/belle_sip_utils.c by its data, from the first link on. Data is compared by
-- a function, which for `find`, `remove` and `index` is equality of pointers; a callback that
-- compares is the Boolean that its result is tested for.
use belle_sip.Prelude.{ℕ, zero, suc, ◌+◌, Bool, Option, none, some, List, [], ◌∷◌, if◌then◌else◌}

module _ {ℓ} {A : Type ℓ} where
  -- append_link and append
  unfoldable pub append : List A → A → List A
  append [] x = x ∷ []
  append (y ∷ l) x = y ∷ append l x

  unfoldable pub prepend : List A → A → List A
  prepend l x = x ∷ l

  unfoldable pub last_elem : List A → Option A
  last_elem [] = none
  last_elem (x ∷ []) = some x
  last_elem (x ∷ y ∷ l) = last_elem (y ∷ l)

  unfoldable pub concat : List A → List A → List A
  concat [] second = second
  concat (x ∷ first) second = x ∷ concat first second

  -- `n` is the counter of the loop.
  unfoldable pub size_from : ℕ → List A → ℕ
  size_from n [] = n
  size_from n (x ∷ l) = size_from (n + 1) l

  unfoldable pub size : List A → ℕ
  unfolding size_from
  size l = size_from 0 l

  unfoldable pub pop_front : List A → List A × Option A
  pop_front [] = ([], none)
  pop_front (x ∷ l) = (l, some x)

  unfoldable pub find_custom : (A → Bool) → List A → Option A
  find_custom is_same [] = none
  find_custom is_same (x ∷ l) = if is_same x then some x else find_custom is_same l

  -- The link that find_custom gives is taken out.
  unfoldable pub delete_custom : (A → Bool) → List A → List A
  delete_custom is_same [] = []
  delete_custom is_same (x ∷ l) = if is_same x then l else x ∷ delete_custom is_same l

  unfoldable pub remove : (A → A → Bool) → List A → A → List A
  unfolding delete_custom
  remove same l x = delete_custom (same x) l

  unfoldable pub nth_data : List A → ℕ → Option A
  nth_data [] i = none
  nth_data (x ∷ l) zero = some x
  nth_data (x ∷ l) (suc i) = nth_data l i

  -- `none` is -1; `i` is the counter of the loop.
  unfoldable pub index_from : ℕ → (A → Bool) → List A → Option ℕ
  index_from i is_same [] = none
  index_from i is_same (x ∷ l) = if is_same x then some i else index_from (i + 1) is_same l

  unfoldable pub index : (A → Bool) → List A → Option ℕ
  unfolding index_from
  index is_same l = index_from 0 is_same l

  -- `le x y` is compare_func(x,y)<=0.
  unfoldable pub insert_sorted : (A → A → Bool) → List A → A → List A
  insert_sorted le [] x = x ∷ []
  insert_sorted le (y ∷ l) x = if le x y then x ∷ y ∷ l else y ∷ insert_sorted le l x

  unfoldable pub for_each {κ} : {S : Type κ} → (A → S → S) → List A → S → S
  for_each f [] s = s
  for_each f (x ∷ l) s = for_each f l (f x s)

  unfoldable pub copy_onto : List A → List A → List A
  unfolding append
  copy_onto done [] = done
  copy_onto done (x ∷ l) = copy_onto (append done x) l

  unfoldable pub copy : List A → List A
  unfolding copy_onto
  copy l = copy_onto [] l

unfoldable pub copy_with_onto {ℓ κ} : {A : Type ℓ} {B : Type κ} → (A → B) → List B → List A → List B
unfolding append
copy_with_onto f done [] = done
copy_with_onto f done (x ∷ l) = copy_with_onto f (append done (f x)) l

unfoldable pub copy_with_data {ℓ κ} : {A : Type ℓ} {B : Type κ} → (A → B) → List A → List B
unfolding copy_with_onto
copy_with_data f l = copy_with_onto f [] l
