-- ===== src/Loop/Invariant.antt =====
-- What holds of the main loop whatever the callbacks do.
use belle_sip.Prelude.{
  ℕ, ◌+◌, ◌≡◌, ◌≢◌, ◌<◌, ap, refl, Bool, true, false, ◌||◌, Option, none, some, List, [], ◌∷◌,
  length, inl, inr, Bool-cases, Option-cases, arith,
}
use belle_sip.Lists.Values.{append, delete_custom}
use belle_sip.Loop.Sources.{
  source_new, expiry, as_timeout, Source, Loop, has_id, find_source, remove_source, modify,
  source_set_timeout, create_source,
}
use belle_sip.Loop.Iterate.{
  examine_all, to_be_notified, Action, create, remove, cancel, rearm, perform, perform_all, Notify,
  restart, Progress, notify_one, notify_all, settle, iterate, Outcome,
}
use belle_sip.Loop.Notified.{ends, NotIn, DistinctIds}

abbrev pub AllBelow : ℕ → List Source → Type 0
AllBelow n [] = Unit
AllBelow n (s ∷ ss) = (s.id < n) × AllBelow n ss

-- No two sources have one id, ids are those that were drawn, and the count is right: poll's table,
-- which has room for `nsources` entries, is large enough.
pub record IsWf (l : Loop) : Type 0 where
  pub distinct : DistinctIds l.sources
  pub drawn : AllBelow l.next_id l.sources
  pub counted : l.nsources ≡ length l.sources

-- The ids of a list, in order.
abbrev pub ids : List Source → List ℕ
ids [] = []
ids (s ∷ ss) = s.id ∷ ids ss

-- A function that keeps the ids of a list keeps what is said of them.
NotIn-ids : (n : ℕ) (ss ts : List Source) → ids ss ≡ ids ts → NotIn n ss → NotIn n ts
NotIn-ids n [] [] e o = tt
NotIn-ids n [] (t ∷ ts) e o = absurd (ground arith)
NotIn-ids n (s ∷ ss) [] e o = tt
NotIn-ids n (s ∷ ss) (t ∷ ts) e o = (ground arith, NotIn-ids n ss ts (ground arith) o.1)

DistinctIds-ids : (ss ts : List Source) → ids ss ≡ ids ts → DistinctIds ss → DistinctIds ts
DistinctIds-ids [] [] e d = tt
DistinctIds-ids [] (t ∷ ts) e d = absurd (ground arith)
DistinctIds-ids (s ∷ ss) [] e d = tt
DistinctIds-ids (s ∷ ss) (t ∷ ts) e d =
    let h : s.id ≡ t.id = ground arith in
    let r : ids ss ≡ ids ts = ground arith in
    (rw (← h) (NotIn-ids s.id ss ts r d.0), DistinctIds-ids ss ts r d.1)

AllBelow-ids : (n : ℕ) (ss ts : List Source) → ids ss ≡ ids ts → AllBelow n ss → AllBelow n ts
AllBelow-ids n [] [] e a = tt
AllBelow-ids n [] (t ∷ ts) e a = absurd (ground arith)
AllBelow-ids n (s ∷ ss) [] e a = tt
AllBelow-ids n (s ∷ ss) (t ∷ ts) e a = (ground arith, AllBelow-ids n ss ts (ground arith) a.1)

length-ids : (ss : List Source) → length (ids ss) ≡ length ss
length-ids [] = refl
length-ids (s ∷ ss) = omega (arith, length-ids ss)

IsWf-ids :
    (l : Loop) (ts : List Source)
    → ids l.sources ≡ ids ts
    → IsWf l
    → IsWf (record l { sources = ts })
IsWf-ids l ts e w = record {
  distinct = DistinctIds-ids l.sources ts e w.distinct;
  drawn = AllBelow-ids l.next_id l.sources ts e w.drawn;
  counted = omega (arith, w.counted, length-ids l.sources, length-ids ts, ap length e);
}

ids-modify :
    (id : ℕ) (f : Source → Source)
    → ((s : Source) → (f s).id ≡ s.id)
    → (ss : List Source) → ids ss ≡ ids (modify id f ss)
unfolding modify
ids-modify id f k [] = refl
ids-modify id f k (s ∷ ss) = ground (arith, k s, ids-modify id f k ss)

ids-examine_all :
    (polled : ℕ → ℕ) (cur : ℕ) (ss : List Source) → ids ss ≡ ids (examine_all polled cur ss)
unfolding examine_all
ids-examine_all polled cur [] = refl
ids-examine_all polled cur (s ∷ ss) = ground (arith, ids-examine_all polled cur ss)

NotIn-delete : (n id : ℕ) (ss : List Source) → NotIn n ss → NotIn n (delete_custom (has_id id) ss)
unfolding delete_custom
NotIn-delete n id [] o = tt
NotIn-delete n id (s ∷ ss) o = ground (arith, NotIn-delete n id ss o.1)

DistinctIds-delete :
    (id : ℕ) (ss : List Source) → DistinctIds ss → DistinctIds (delete_custom (has_id id) ss)
unfolding delete_custom
DistinctIds-delete id [] d = tt
DistinctIds-delete id (s ∷ ss) d =
    ground (arith, DistinctIds-delete id ss d.1, NotIn-delete s.id id ss d.0)

AllBelow-delete :
    (n id : ℕ) (ss : List Source) → AllBelow n ss → AllBelow n (delete_custom (has_id id) ss)
unfolding delete_custom
AllBelow-delete n id [] a = tt
AllBelow-delete n id (s ∷ ss) a = ground (arith, AllBelow-delete n id ss a.1)

length-delete :
    (id : ℕ) (ss : List Source) (s : Source)
    → find_source id ss ≡ some s
    → length (delete_custom (has_id id) ss) + 1 ≡ length ss
unfolding find_source delete_custom
length-delete id [] s e = absurd (ground arith)
length-delete id (t ∷ ss) s e = ground (arith, length-delete id ss s)

remove_source-IsWf : (id : ℕ) (l : Loop) → IsWf l → IsWf (remove_source id l)
unfolding remove_source
remove_source-IsWf id l w = elim (Option-cases (find_source id l.sources)) [
  | inl e ↦ rw (e, remove_source) w
  | inr (s, e) ↦
      rw (e, remove_source)
        (record {
          distinct = DistinctIds-delete id l.sources w.distinct;
          drawn = AllBelow-delete l.next_id id l.sources w.drawn;
          counted = omega (arith, length-delete id l.sources s e, w.counted);
        })
]

NotIn-append :
    (n : ℕ) (ss : List Source) (s : Source) → NotIn n ss → s.id ≢ n → NotIn n (append ss s)
unfolding append
NotIn-append n [] s o d = (d, tt)
NotIn-append n (t ∷ ss) s o d = (o.0, NotIn-append n ss s o.1 d)

append-IsWf :
    (n : ℕ) (ss : List Source) (s : Source)
    → s.id ≡ n
    → DistinctIds ss
    → AllBelow n ss
    → DistinctIds (append ss s)
      × AllBelow (n + 1) (append ss s)
      × (length (append ss s) ≡ length ss + 1)
unfolding append
append-IsWf n [] s e d a = ground arith
append-IsWf n (t ∷ ss) s e d a =
    ground (arith, append-IsWf n ss s e d.1 a.1, NotIn-append t.id ss s d.0)

create_source-IsWf :
    (now : ℕ) (has_fd oneshot : Bool) (ms : ℕ) (l : Loop)
    → IsWf l
    → IsWf (create_source now has_fd oneshot ms l)
unfolding create_source
create_source-IsWf now has_fd oneshot ms l w =
    let new = record (source_new l.next_id has_fd oneshot ms) {
      expire_ms = expiry now (as_timeout ms) 0;
      cancelled = false;
    } in
    let (a, b, c) = append-IsWf l.next_id l.sources new refl w.distinct w.drawn in
    record { distinct = a; drawn = b; counted = omega (arith, c, w.counted) }

perform-IsWf : (a : Action) (l : Loop) → IsWf l → IsWf (perform a l)
unfolding perform
perform-IsWf (create now has_fd oneshot ms) l w = create_source-IsWf now has_fd oneshot ms l w
perform-IsWf (remove id) l w = remove_source-IsWf id l w
perform-IsWf (cancel id) l w =
    IsWf-ids l _ (ids-modify id (λ s. record s { cancelled = true }) (λ s. refl) l.sources) w
perform-IsWf (rearm now id ms) l w =
    IsWf-ids l _ (ids-modify id (source_set_timeout now ms) (λ s. ground arith) l.sources) w

perform_all-IsWf : (acts : List Action) (l : Loop) → IsWf l → IsWf (perform_all acts l)
unfolding perform_all
perform_all-IsWf [] l w = w
perform_all-IsWf (a ∷ acts) l w = perform_all-IsWf acts (perform a l) (perform-IsWf a l w)

settle-IsWf :
    (r : Outcome) (once : Bool) (cur id : ℕ) (l : Loop) → IsWf l → IsWf (settle r once cur id l)
unfolding settle
settle-IsWf r once cur id l w =
    let kept = ids-modify id (restart r cur) (λ s. ground arith) l.sources in
    let stays = IsWf-ids l (modify id (restart r cur) l.sources) kept w in
    elim (Bool-cases (ends r || once)) [
      | inl e ↦ rw (e, settle) (remove_source-IsWf id l w)
      | inr e ↦ rw (e, settle) stays
    ]

notify_one-IsWf :
    {W : Type 0} (notify : Notify W) (cur id : ℕ) (p : Progress W)
    → IsWf p.loop
    → IsWf (notify_one notify cur id p).loop
unfolding notify_one
notify_one-IsWf notify cur id p w = elim (Option-cases (find_source id p.loop.sources)) [
  | inl e ↦ rw (e, notify_one) w
  | inr (s, e) ↦ elim (Bool-cases s.cancelled) [
    | inl c ↦ rw (e, c, notify_one) (remove_source-IsWf id p.loop w)
    | inr c ↦
        let r = notify id s.revents p.world in
        rw (e, c, notify_one)
          (settle-IsWf r.1 s.oneshot cur id (perform_all r.0.1 p.loop)
            (perform_all-IsWf r.0.1 p.loop w))
  ]
]

notify_all-IsWf :
    {W : Type 0} (notify : Notify W) (cur : ℕ) (todo : List ℕ) (p : Progress W)
    → IsWf p.loop
    → IsWf (notify_all notify cur todo p).loop
unfolding notify_all
notify_all-IsWf notify cur [] p w = w
notify_all-IsWf notify cur (id ∷ todo) p w =
    notify_all-IsWf notify cur todo (notify_one notify cur id p) (notify_one-IsWf notify cur id p w)

-- Whatever the callbacks create, remove, cancel or set again, an iteration keeps the loop well formed.
pub iterate-IsWf :
    {W : Type 0} (notify : Notify W) (polled : Option (ℕ → ℕ)) (cur : ℕ) (p : Progress W)
    → IsWf p.loop
    → IsWf (iterate notify polled cur p).loop
unfolding iterate
iterate-IsWf notify none cur p w = w
iterate-IsWf notify (some polled) cur p w = elim (Bool-cases p.loop.in_iterate) [
  | inl e ↦ rw (e, iterate) (record { distinct = w.distinct; drawn = w.drawn; counted = w.counted })
  | inr e ↦
      let l1 = record (p.loop) {
        sources = examine_all polled cur p.loop.sources;
        in_iterate = true;
      } in
      let v = IsWf-ids p.loop _ (ids-examine_all polled cur p.loop.sources) w in
      let start : IsWf l1 = record {
        distinct = v.distinct;
        drawn = v.drawn;
        counted = v.counted;
      } in
      let q =
        notify_all-IsWf notify cur (to_be_notified polled cur p.loop.sources)
          (record p { loop = l1 }) start in
      rw (e, iterate) (record { distinct = q.distinct; drawn = q.drawn; counted = q.counted })
]
