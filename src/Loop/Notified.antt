-- ===== src/Loop/Notified.antt =====
-- What one iteration of the main loop does to its sources.
use mathlib.Core.List.{append_assoc, reverse_aux}
use belle_sip.Prelude.{
  ℕ, ◌≡◌, ◌≢◌, ◌∙◌, ap, refl, sym, inl, inr, Bool, true, false, ◌||◌, some, List, [], ◌∷◌, ◌++◌,
  if◌then◌else◌, Bool-cases, arith,
}
use belle_sip.Lists.Values.{find_custom, delete_custom}
use belle_sip.Loop.Sources.{Source, has_id, find_source, remove_source, modify}
use belle_sip.Loop.Iterate.{
  is_ready, examine, examine_all, to_be_notified, Outcome, stop, Notify, restart, Progress,
  notify_one, notify_all, perform_all,
}

abbrev pub NotIn : ℕ → List Source → Type 0
NotIn id [] = Unit
NotIn id (s ∷ ss) = (s.id ≢ id) × NotIn id ss

abbrev pub DistinctIds : List Source → Type 0
DistinctIds [] = Unit
DistinctIds (s ∷ ss) = NotIn s.id ss × DistinctIds ss

find_source-append :
    (xs : List Source) (s : Source) (ys : List Source)
    → NotIn s.id xs
    → find_source s.id (xs ++ s ∷ ys) ≡ some s
unfolding find_source find_custom
find_source-append [] s ys o = ground arith
find_source-append (x ∷ xs) s ys o = ground (arith, find_source-append xs s ys o.1)

delete-append :
    (xs : List Source) (s : Source) (ys : List Source)
    → NotIn s.id xs
    → delete_custom (has_id s.id) (xs ++ s ∷ ys) ≡ xs ++ ys
unfolding delete_custom
delete-append [] s ys o = ground arith
delete-append (x ∷ xs) s ys o = ground (arith, delete-append xs s ys o.1)

modify_absent :
    (id : ℕ) (f : Source → Source) (ys : List Source) → NotIn id ys → modify id f ys ≡ ys
unfolding modify
modify_absent id f [] o = refl
modify_absent id f (y ∷ ys) o = ground (arith, modify_absent id f ys o.1)

modify-append :
    (f : Source → Source) (xs : List Source) (s : Source) (ys : List Source)
    → NotIn s.id xs
    → NotIn s.id ys
    → modify s.id f (xs ++ s ∷ ys) ≡ xs ++ f s ∷ ys
unfolding modify
modify-append f [] s ys o p = ground (arith, modify_absent s.id f ys p)
modify-append f (x ∷ xs) s ys o p = ground (arith, modify-append f xs s ys o.1 p)

-- A callback that does nothing to the loop: it changes the application's state, and its result
-- depends on the source and the events.
abbrev pub quiet : {W : Type 0} → (ℕ → ℕ → W → W) → (ℕ → ℕ → Outcome) → Notify W
quiet change outcome id events w = ((change id events w, []), outcome id events)

abbrev pub ends : Outcome → Bool
ends stop = true
ends _ = false

-- What becomes of the sources: a cancelled one leaves the list; one that is ready is notified, and
-- leaves it if its callback says so or it is a oneshot, else its timer is started again; any other
-- stays, with the events that poll reported for it.
unfoldable pub settled : (ℕ → ℕ → Outcome) → (ℕ → ℕ) → ℕ → List Source → List Source
settled outcome polled cur [] = []
settled outcome polled cur (s ∷ ss) =
    let rest = settled outcome polled cur ss in
    let s1 = examine polled cur s in
    let result = outcome s.id s1.revents in
    if s.cancelled
    then rest
    else if is_ready polled cur s
    then (if ends result || s.oneshot then rest else restart result cur s1 ∷ rest)
    else s1 ∷ rest

-- The ids of the sources that are ready, in order.
unfoldable pub ready_ids : (ℕ → ℕ) → ℕ → List Source → List ℕ
ready_ids polled cur [] = []
ready_ids polled cur (s ∷ ss) =
    let rest = ready_ids polled cur ss in if is_ready polled cur s then s.id ∷ rest else rest

pub examine_id :
    (polled : ℕ → ℕ) (cur : ℕ) (s : Source)
    → ((examine polled cur s).id ≡ s.id)
      × ((examine polled cur s).cancelled ≡ s.cancelled)
      × ((examine polled cur s).oneshot ≡ s.oneshot)
unfolding examine
examine_id polled cur s = ground arith

pub restart_id : (r : Outcome) (cur : ℕ) (s : Source) → (restart r cur s).id ≡ s.id
unfolding restart
restart_id r cur s = ground arith

NotIn-examine_all :
    (polled : ℕ → ℕ) (cur id : ℕ) (ss : List Source)
    → NotIn id ss
    → NotIn id (examine_all polled cur ss)
unfolding examine_all
NotIn-examine_all polled cur id [] o = tt
NotIn-examine_all polled cur id (s ∷ ss) o =
    ((λ e. o.0 (sym (examine_id polled cur s).0 ∙ e)), NotIn-examine_all polled cur id ss o.1)

NotIn-snoc :
    (id : ℕ) (xs : List Source) (s : Source) → NotIn id xs → s.id ≢ id → NotIn id (xs ++ s ∷ [])
NotIn-snoc id [] s o n = (n, tt)
NotIn-snoc id (x ∷ xs) s o n = (o.0, NotIn-snoc id xs s o.1 n)

-- No id of the second list is in the first.
abbrev pub Apart : List Source → List Source → Type 0
Apart done [] = Unit
Apart done (s ∷ ss) = NotIn s.id done × Apart done ss

Apart-snoc :
    (done : List Source) (s : Source) (ss : List Source)
    → Apart done ss
    → NotIn s.id ss
    → Apart (done ++ s ∷ []) ss
Apart-snoc done s [] a n = tt
Apart-snoc done s (t ∷ ss) a n =
    (NotIn-snoc t.id done s a.0 (λ e. n.0 (sym e)), Apart-snoc done s ss a.1 n.1)

pub Apart-nil : (ss : List Source) → Apart [] ss
Apart-nil [] = tt
Apart-nil (s ∷ ss) = (tt, Apart-nil ss)

module _ {W : Type 0} (change : ℕ → ℕ → W → W) (outcome : ℕ → ℕ → Outcome) (cur : ℕ)
    (done : List Source) (s : Source) (rest : List Source) (p : Progress W) (id : ℕ)
    (e : p.loop.sources ≡ done ++ s ∷ rest) (same : s.id ≡ id) (o : NotIn s.id done) where
  found : find_source id p.loop.sources ≡ some s
  found =
      ap (λ k. find_source k p.loop.sources) (sym same)
      ∙ ap (find_source s.id) e
      ∙ find_source-append done s rest o

  gone : delete_custom (has_id id) p.loop.sources ≡ done ++ rest
  gone =
      ap (λ k. delete_custom (has_id k) p.loop.sources) (sym same)
      ∙ ap (delete_custom (has_id s.id)) e
      ∙ delete-append done s rest o

  kept : (f : Source → Source) → NotIn s.id rest → modify id f p.loop.sources ≡ done ++ f s ∷ rest
  kept f n =
      ap (λ k. modify k f p.loop.sources) (sym same)
      ∙ ap (modify s.id f) e
      ∙ modify-append f done s rest o n

  -- One source that is ready, in the middle of the list.
  notify_ready :
      (once : Bool)
      → s.oneshot ≡ once
      → NotIn s.id rest
      → s.cancelled ≡ false
      → let q = notify_one (quiet change outcome) cur id p in
        (q.log ≡ id ∷ p.log)
        × (q.loop.sources ≡ (
            if ends (outcome id s.revents) || once
            then done ++ rest
            else done ++ restart (outcome id s.revents) cur s ∷ rest))
  unfolding notify_one perform_all remove_source
  notify_ready once b n c = ground (arith, found, gone, kept (restart (outcome id s.revents) cur) n)

  -- One that is cancelled.
  notify_cancelled :
      s.cancelled ≡ true
      → let q = notify_one (quiet change outcome) cur id p in
        (q.log ≡ p.log) × (q.loop.sources ≡ done ++ rest)
  unfolding notify_one perform_all remove_source
  notify_cancelled c = ground (arith, found, gone)

module _ (outcome : ℕ → ℕ → Outcome) (polled : ℕ → ℕ) (cur : ℕ) where
  -- The heads of the three lists, by what becomes of the first source.
  abbrev Firsts : Source → List Source → List ℕ → List ℕ → List Source → Type 0
  Firsts s ss ids ready left =
      (to_be_notified polled cur (s ∷ ss) ≡ ids ++ to_be_notified polled cur ss)
      × (ready_ids polled cur (s ∷ ss) ≡ ready ++ ready_ids polled cur ss)
      × (settled outcome polled cur (s ∷ ss) ≡ left ++ settled outcome polled cur ss)

  heads_cancelled :
      (s : Source) (ss : List Source) → s.cancelled ≡ true → Firsts s ss (s.id ∷ []) [] []
  unfolding to_be_notified ready_ids settled
  heads_cancelled s ss c = ground arith

  heads_ended :
      (s : Source) (ss : List Source)
      → s.cancelled ≡ false
      → is_ready polled cur s ≡ true
      → (ends (outcome s.id (examine polled cur s).revents) || s.oneshot) ≡ true
      → Firsts s ss (s.id ∷ []) (s.id ∷ []) []
  unfolding to_be_notified ready_ids settled
  heads_ended s ss c r e = ground arith

  heads_restarted :
      (s : Source) (ss : List Source)
      → s.cancelled ≡ false
      → is_ready polled cur s ≡ true
      → (ends (outcome s.id (examine polled cur s).revents) || s.oneshot) ≡ false
      → let s1 = examine polled cur s in
        Firsts s ss (s.id ∷ []) (s.id ∷ []) (restart (outcome s.id s1.revents) cur s1 ∷ [])
  unfolding to_be_notified ready_ids settled
  heads_restarted s ss c r e = ground arith

  heads_idle :
      (s : Source) (ss : List Source)
      → s.cancelled ≡ false
      → is_ready polled cur s ≡ false
      → Firsts s ss [] [] (examine polled cur s ∷ [])
  unfolding to_be_notified ready_ids settled
  heads_idle s ss c r = ground arith

-- The sources from `todo` on are settled one after the other.
pub notify_all-settled :
    {W : Type 0} (change : ℕ → ℕ → W → W) (outcome : ℕ → ℕ → Outcome) (polled : ℕ → ℕ) (cur : ℕ)
    (todo done : List Source) (p : Progress W)
    → p.loop.sources ≡ done ++ examine_all polled cur todo
    → Apart done todo
    → DistinctIds todo
    → let q = notify_all (quiet change outcome) cur (to_be_notified polled cur todo) p in
      (q.log ≡ reverse_aux (ready_ids polled cur todo) p.log)
      × (q.loop.sources ≡ done ++ settled outcome polled cur todo)
unfolding notify_all examine_all
notify_all-settled change outcome polled cur [] done p e a d =
    unfold to_be_notified ready_ids settled in (refl, e)
notify_all-settled change outcome polled cur (s ∷ ss) done p e a d =
    let s1 = examine polled cur s in
    let rest = examine_all polled cur ss in
    let ids = examine_id polled cur s in
    let o : NotIn s1.id done = rw (ids.0) a.0 in
    let n : NotIn s1.id rest = rw (ids.0) (NotIn-examine_all polled cur s.id ss d.0) in
    let q = notify_one (quiet change outcome) cur s.id p in
    let apart = λ (x : Source) (same : x.id ≡ s.id). Apart-snoc done x ss a.1 (rw same d.0) in
    elim (Bool-cases s.cancelled) [
      | inl c ↦
          let (l, r) =
            notify_cancelled change outcome cur done s1 rest p s.id e (ids.0) o (ids.1 ∙ c) in
          let (m, t) = notify_all-settled change outcome polled cur ss done q r a.1 d.1 in
          let z = heads_cancelled outcome polled cur s ss c in
          rw (z.0, z.1, z.2) (m ∙ ap (reverse_aux (ready_ids polled cur ss)) l, t)
      | inr c ↦ elim (Bool-cases (is_ready polled cur s)) [
        | inr idle ↦
            let e' : p.loop.sources ≡ (done ++ s1 ∷ []) ++ rest =
              e ∙ sym (append_assoc done (s1 ∷ []) rest) in
            let (m, t) =
              notify_all-settled change outcome polled cur ss (done ++ s1 ∷ []) p e'
                (apart s1 (ids.0)) d.1 in
            let z = heads_idle outcome polled cur s ss c idle in
            rw (z.0, z.1, z.2) (m, t ∙ append_assoc done (s1 ∷ []) (settled outcome polled cur ss))
        | inl ready ↦
            let (l, r) =
              notify_ready change outcome cur done s1 rest p s.id e (ids.0) o s.oneshot (ids.2) n
                (ids.1 ∙ c) in
            let result = outcome s.id s1.revents in
            elim (Bool-cases (ends result || s.oneshot)) [
              | inl ended ↦
                  let (m, t) =
                    notify_all-settled change outcome polled cur ss done q (rw ended at r) a.1
                      d.1 in
                  let z = heads_ended outcome polled cur s ss c ready ended in
                  rw (z.0, z.1, z.2) (m ∙ ap (reverse_aux (ready_ids polled cur ss)) l, t)
              | inr stays ↦
                  let x = restart result cur s1 in
                  let r' : q.loop.sources ≡ (done ++ x ∷ []) ++ rest =
                    (rw stays at r) ∙ sym (append_assoc done (x ∷ []) rest) in
                  let (m, t) =
                    notify_all-settled change outcome polled cur ss (done ++ x ∷ []) q r'
                      (apart x (restart_id result cur s1 ∙ ids.0)) d.1 in
                  let z = heads_restarted outcome polled cur s ss c ready stays in
                  rw (z.0, z.1, z.2)
                    (
                      m ∙ ap (reverse_aux (ready_ids polled cur ss)) l,
                      t ∙ append_assoc done (x ∷ []) (settled outcome polled cur ss),
                    )
            ]
      ]
    ]
