-- ===== src/Lists/Nodes.antt =====
-- The links of src/belle_sip_utils.c in memory: belle_sip_list_remove_link, _append_link, _prepend
-- and what they need. A list is a pointer to its first link, and a null pointer is `none`. An access
-- to an address that holds no link is a fault, `none`.
use belle_sip.Prelude.{ℕ, zero, suc, Bool, false, ◌==◌, Option, none, some, if◌then◌else◌}

-- belle_sip_list_t; `item` is the pointer to the data.
pub record Node : Type 0 where
  pub prev : Option ℕ
  pub next : Option ℕ
  pub item : ℕ

abbrev pub node : Option ℕ → Option ℕ → ℕ → Node
node p n x = record { prev = p; next = n; item = x }

abbrev pub Heap : Type 0
Heap = ℕ → Option Node

abbrev pub write : Heap → ℕ → Node → Heap
write h p n q = if q == p then some n else h q

abbrev pub bind : {A B : Type 0} → Option A → (A → Option B) → Option B
bind none f = none
bind (some a) f = f a

-- p->next=q and p->prev=q
abbrev pub set_next : Heap → ℕ → Option ℕ → Option Heap
set_next h p q = bind (h p) (λ n. some (write h p (record n { next = q })))

abbrev pub set_prev : Heap → ℕ → Option ℕ → Option Heap
set_prev h p q = bind (h p) (λ n. some (write h p (record n { prev = q })))

-- if (p!=NULL) p->prev=q
abbrev pub set_prev_of : Heap → Option ℕ → Option ℕ → Option Heap
set_prev_of h none q = some h
set_prev_of h (some p) q = set_prev h p q

abbrev pub same : Option ℕ → ℕ → Bool
same none p = false
same (some q) p = q == p

-- both links of a node are reset
abbrev pub isolate : Heap → ℕ → Option Heap
isolate h p = bind (h p) (λ n. some (write h p (node none none n.item)))

abbrev unlink_inner : Heap → Option ℕ → ℕ → Option ℕ → Option Heap
unlink_inner h none p next = none
unlink_inner h (some b) p next =
    bind (set_next h b next)
      (λ h1. bind (h1 p) (λ n. bind (set_prev_of h1 n.next n.prev) (λ h2. isolate h2 p)))

-- The new first link, and the memory.
unfoldable pub remove_link : Heap → Option ℕ → ℕ → Option (Option ℕ × Heap)
remove_link h first p = bind (h p) (λ n.
    if same first p
    then bind (isolate h p) (λ h1. bind (set_prev_of h1 n.next none) (λ h2. some (n.next, h2)))
    else bind (unlink_inner h n.prev p n.next) (λ h1. some (first, h1)))

-- while (it->next!=NULL) it=it->next; on fuel
unfoldable pub last_link : ℕ → Heap → ℕ → Option ℕ
last_link zero h p = none
last_link (suc k) h p = bind (h p) (λ n. elim n.next [ none ↦ some p | some q ↦ last_link k h q ])

-- `fuel` bounds the walk to the last link.
unfoldable pub append_link : ℕ → Heap → Option ℕ → Option ℕ → Option (Option ℕ × Heap)
unfolding last_link
append_link fuel h none q = some (q, h)
append_link fuel h (some p) none = some (some p, h)
append_link fuel h (some p) (some q) = bind (last_link fuel h p) (λ it.
    bind (set_next h it (some q)) (λ h1. bind (set_prev h1 q (some it)) (λ h2. some (some p, h2))))

-- `q` is what malloc gives: a link of its own.
unfoldable pub prepend_link : Heap → Option ℕ → ℕ → ℕ → Option (Option ℕ × Heap)
prepend_link h first q x =
    let h1 = write h q (node none first x) in
    bind (set_prev_of h1 first (some q)) (λ h2. some (some q, h2))
