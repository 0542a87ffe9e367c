-- ===== src/Loop/Sources.antt =====
-- belle_sip_source_t and the functions of src/belle_sip_loop.c on the list of sources. A source is
-- known by its id, of which each gets its own; a source that is not in the list has been removed.
use belle_sip.Prelude.{
  ℕ, ◌+◌, ◌-◌, ◌^◌, Bool, true, false, ◌==◌, Option, none, some, List, [], ◌∷◌, ltb, if◌then◌else◌,
}
use belle_sip.Lists.Values.{append, find_custom, delete_custom}

pub record Source : Type 0 where
  pub id : ℕ
  -- a file descriptor is polled
  pub has_fd : Bool
  -- a negative one is none
  pub timeout : Option ℕ
  pub expire_ms : ℕ
  pub revents : ℕ
  pub cancelled : Bool
  pub expired : Bool
  pub oneshot : Bool
  pub notify_required : Bool

-- belle_sip_main_loop_t, with the counter from which belle_sip_source_init draws the ids.
pub record Loop : Type 0 where
  pub sources : List Source
  pub nsources : ℕ
  pub next_id : ℕ
  pub in_iterate : Bool

-- An unsigned value that is stored in an int.
abbrev pub as_timeout : ℕ → Option ℕ
as_timeout ms = if ltb ms (2 ^ 31) then some ms else none

abbrev pub expiry : ℕ → Option ℕ → ℕ → ℕ
expiry now none old = old
expiry now (some ms) old = now + ms

unfoldable pub source_new : ℕ → Bool → Bool → ℕ → Source
source_new id has_fd oneshot ms = record {
  id = id;
  has_fd = has_fd;
  timeout = as_timeout ms;
  expire_ms = 0;
  revents = 0;
  cancelled = false;
  expired = false;
  oneshot = oneshot;
  notify_required = false;
}

-- belle_sip_main_loop_add_source at the time `now`, on a source that is in no list.
unfoldable pub add_source : ℕ → Source → Loop → Loop
unfolding append
add_source now s l =
    let s' = record s { expire_ms = expiry now s.timeout s.expire_ms; cancelled = false } in
    record l { sources = append l.sources s'; nsources = l.nsources + 1 }

-- A source is made and added: belle_sip_main_loop_create_timeout, _add_timeout and _do_later, and
-- what a transport does for its socket.
unfoldable pub create_source : ℕ → Bool → Bool → ℕ → Loop → Loop
unfolding add_source source_new
create_source now has_fd oneshot ms l =
    add_source now (source_new l.next_id has_fd oneshot ms) (record l { next_id = l.next_id + 1 })

unfoldable pub create_timeout : ℕ → ℕ → Loop → Loop
unfolding create_source
create_timeout now ms l = create_source now false false ms l

unfoldable pub do_later : ℕ → Loop → Loop
unfolding create_source
do_later now l = create_source now false true 0 l

abbrev pub has_id : ℕ → Source → Bool
has_id id s = s.id == id

unfoldable pub find_source : ℕ → List Source → Option Source
unfolding find_custom
find_source id ss = find_custom (has_id id) ss

-- Nothing is done to a source that is not in the list.
unfoldable pub remove_source : ℕ → Loop → Loop
unfolding find_source delete_custom
remove_source id l = elim (find_source id l.sources) [
  | none ↦ l
  | some s ↦ record l { sources = delete_custom (has_id id) l.sources; nsources = l.nsources - 1 }
]

-- An assignment to fields of the source.
abbrev pub at_id : ℕ → (Source → Source) → Source → Source
at_id id f s = if has_id id s then f s else s

unfoldable pub modify : ℕ → (Source → Source) → List Source → List Source
modify id f [] = []
modify id f (s ∷ ss) = at_id id f s ∷ modify id f ss

unfoldable pub cancel_source : ℕ → Loop → Loop
unfolding modify
cancel_source id l = record l { sources = modify id (λ s. record s { cancelled = true }) l.sources }

unfoldable pub source_set_timeout : ℕ → ℕ → Source → Source
source_set_timeout now ms s =
    let s1 = if s.expired then s else record s { expire_ms = now + ms } in
    record s1 { timeout = as_timeout ms }

unfoldable pub set_timeout : ℕ → ℕ → ℕ → Loop → Loop
unfolding modify source_set_timeout
set_timeout now id ms l = record l { sources = modify id (source_set_timeout now ms) l.sources }
