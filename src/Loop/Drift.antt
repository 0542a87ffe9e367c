-- ===== src/Loop/Drift.antt =====
-- A periodic timer among the other sources of the main loop, over many iterations.
use mathlib.Core.List.{reverse_aux}
use belle_sip.Prelude.{
  ℕ, ◌+◌, ◌*◌, ◌≡◌, ◌≢◌, ◌⊎◌, ◌∙◌, ap, sym, refl, Bool, true, false, ◌==◌, some, List, [], ◌∷◌,
  ◌++◌, count_if, if◌then◌else◌, arith,
}
use mathlib.Core.Path.{subst}
use belle_sip.Loop.Sources.{Source}
use belle_sip.Loop.Iterate.{is_ready, examine, Outcome, continue, restart, Progress, iterate}
use belle_sip.Loop.Notified.{NotIn, DistinctIds, quiet, settled, ready_ids, examine_id, restart_id}
use belle_sip.Loop.Iteration.{iterate_settles}

-- A live periodic timer without a file descriptor.
pub record IsPeriodic (id ms : ℕ) (s : Source) : Type 0 where
  pub id_is : s.id ≡ id
  pub no_fd : s.has_fd ≡ false
  pub period : s.timeout ≡ some ms
  pub live : s.cancelled ≡ false
  pub periodic : s.oneshot ≡ false
  pub events : (s.revents ≡ 0) ⊎ (s.revents ≡ 8)

-- How often a source is in a log.
abbrev pub times : ℕ → List ℕ → ℕ
times id log = count_if (λ x. x == id) log

times_cons : (id x : ℕ) (xs : List ℕ) → times id (x ∷ xs) ≡ (if x == id then 1 else 0) + times id xs
times_cons id x xs = ground arith

times-reverse_aux :
    (id : ℕ) (xs ys : List ℕ) → times id (reverse_aux xs ys) ≡ times id xs + times id ys
times-reverse_aux id [] ys = omega arith
times-reverse_aux id (x ∷ xs) ys =
    omega (arith, times-reverse_aux id xs (x ∷ ys), times_cons id x xs, times_cons id x ys)

module _ (outcome : ℕ → ℕ → Outcome) (polled : ℕ → ℕ) (cur : ℕ) where
  settled-append :
      (xs ys : List Source)
      → settled outcome polled cur (xs ++ ys)
        ≡ settled outcome polled cur xs ++ settled outcome polled cur ys
  unfolding settled
  settled-append [] ys = refl
  settled-append (x ∷ xs) ys = ground (arith, settled-append xs ys)

  NotIn-settled :
      (id : ℕ) (ss : List Source) → NotIn id ss → NotIn id (settled outcome polled cur ss)
  unfolding settled
  NotIn-settled id [] o = tt
  NotIn-settled id (s ∷ ss) o =
      let rest = NotIn-settled id ss o.1 in
      let a = (examine_id polled cur s).0 in
      let b = restart_id (outcome s.id (examine polled cur s).revents) cur (examine polled cur s) in
      ground (arith, rest, a, b, o.0)

  DistinctIds-settled :
      (ss : List Source) → DistinctIds ss → DistinctIds (settled outcome polled cur ss)
  unfolding settled
  DistinctIds-settled [] d = tt
  DistinctIds-settled (s ∷ ss) d =
      let rest = DistinctIds-settled ss d.1 in
      let n = NotIn-settled s.id ss d.0 in
      let a = (examine_id polled cur s).0 in
      let b = restart_id (outcome s.id (examine polled cur s).revents) cur (examine polled cur s) in
      let nr = subst (λ i. NotIn i (settled outcome polled cur ss)) (sym (b ∙ a)) n in
      let ne = subst (λ i. NotIn i (settled outcome polled cur ss)) (sym a) n in
      ground (arith, rest, nr, ne)

  times_absent : (id : ℕ) (ss : List Source) → NotIn id ss → times id (ready_ids polled cur ss) ≡ 0
  unfolding ready_ids
  times_absent id [] o = refl
  times_absent id (s ∷ ss) o = ground (arith, times_absent id ss o.1, o.0)

  ready_ids-append :
      (xs ys : List Source)
      → ready_ids polled cur (xs ++ ys) ≡ ready_ids polled cur xs ++ ready_ids polled cur ys
  unfolding ready_ids
  ready_ids-append [] ys = refl
  ready_ids-append (x ∷ xs) ys = ground (arith, ready_ids-append xs ys)

abbrev after_tick : (ℕ → ℕ → Outcome) → (ℕ → ℕ) → ℕ → Source → Source
after_tick outcome polled cur s =
    let s1 = examine polled cur s in
    if is_ready polled cur s then restart (outcome s.id s1.revents) cur s1 else s1

tick :
    (outcome : ℕ → ℕ → Outcome) (polled : ℕ → ℕ) (cur id ms : ℕ) (s : Source) (ys : List Source)
    → IsPeriodic id ms s
    → ((events : ℕ) → outcome id events ≡ continue)
    → (settled outcome polled cur (s ∷ ys)
        ≡ after_tick outcome polled cur s ∷ settled outcome polled cur ys)
      × IsPeriodic id ms (after_tick outcome polled cur s)
      × ((after_tick outcome polled cur s).expire_ms
          ≡ s.expire_ms + (if is_ready polled cur s then ms else 0))
      × (times id (ready_ids polled cur (s ∷ ys))
          ≡ (if is_ready polled cur s then 1 else 0) + times id (ready_ids polled cur ys))
unfolding settled ready_ids examine restart
tick outcome polled cur id ms s ys t o =
    let c : outcome s.id (examine polled cur s).revents ≡ continue =
      ap (λ i. outcome i (examine polled cur s).revents) t.id_is
      ∙ o (examine polled cur s).revents in
    (ground (arith, c), ground (arith, c), ground (arith, c), ground (arith, t.id_is))

-- One iteration: what poll reports, and the time that is read.
pub record Round : Type 0 where
  pub polled : ℕ → ℕ
  pub cur : ℕ

-- Iterations, with callbacks that do nothing to the loop.
pub run : {W : Type 0} → (ℕ → ℕ → W → W) → (ℕ → ℕ → Outcome) → List Round → Progress W → Progress W
run change outcome [] p = p
run change outcome (r ∷ rs) p =
    run change outcome rs (iterate (quiet change outcome) (some r.polled) r.cur p)

times-append : (id : ℕ) (xs ys : List ℕ) → times id (xs ++ ys) ≡ times id xs + times id ys
times-append id [] ys = omega arith
times-append id (x ∷ xs) ys =
    omega (arith, times-append id xs ys, times_cons id x xs, times_cons id x (xs ++ ys))

-- A timer in a loop of which the expiry has moved with the notifications.
pub record HasKept (id ms expiry : ℕ) (before : List ℕ) (l : List Source) (log : List ℕ)
    : Type 0 where
  pub in_front : List Source
  pub timer : Source
  pub behind : List Source
  pub sources_are : l ≡ in_front ++ timer ∷ behind
  pub still_periodic : IsPeriodic id ms timer
  pub expiry_is : timer.expire_ms + ms * times id before ≡ expiry + ms * times id log

apart_ids :
    (xs : List Source) (s : Source) (ys : List Source)
    → DistinctIds (xs ++ s ∷ ys)
    → NotIn s.id xs × NotIn s.id ys
apart_ids [] s ys d = (tt, d.0)
apart_ids (x ∷ xs) s ys d = let (a, b) = apart_ids xs s ys d.1 in ((differs xs d.0, a), b)
  where
    differs : (zs : List Source) → NotIn x.id (zs ++ s ∷ ys) → x.id ≢ s.id
    differs [] o = λ e. o.0 (sym e)
    differs (z ∷ zs) o = differs zs o.1

times_ready :
    (polled : ℕ → ℕ) (cur id : ℕ) (xs : List Source) (s : Source) (ys : List Source) (log : List ℕ)
    → s.id ≡ id
    → DistinctIds (xs ++ s ∷ ys)
    → times id (ready_ids polled cur (s ∷ ys))
      ≡ (if is_ready polled cur s then 1 else 0) + times id (ready_ids polled cur ys)
    → times id (reverse_aux (ready_ids polled cur (xs ++ s ∷ ys)) log)
      ≡ (if is_ready polled cur s then 1 else 0) + times id log
times_ready polled cur id xs s ys log e d h =
    let (a, b) = apart_ids xs s ys d in
    let ids = ready_ids polled cur (xs ++ s ∷ ys) in
    omega (
      arith,
      h,
      times-reverse_aux id ids log,
      ap (times id) (ready_ids-append continues polled cur xs (s ∷ ys)),
      times-append id (ready_ids polled cur xs) (ready_ids polled cur (s ∷ ys)),
      times_absent continues polled cur id xs (subst (λ i. NotIn i xs) e a),
      times_absent continues polled cur id ys (subst (λ i. NotIn i ys) e b),
    )
  where
    continues : ℕ → ℕ → Outcome
    continues i events = continue

-- A notification moves both sides by one period.
moved :
    (ready : Bool) (ms now expire final n : ℕ)
    → now + ms * ((if ready then 1 else 0) + n) ≡ (expire + (if ready then ms else 0)) + final
    → now + ms * n ≡ expire + final
moved true ms now expire final n e =
    let m : ms * (1 + n) ≡ ms + ms * n = grind arith in omega (arith, e, m)
moved false ms now expire final n e =
    let m : ms * (0 + n) ≡ ms * n = ap (λ k. ms * k) (omega arith) in omega (arith, e, m)

-- A periodic timer whose callback says continue does not drift, whatever other sources, of other ids,
-- the loop has, whenever the iterations come and whatever poll reports in them, as long as the callbacks
-- do nothing to the loop: it stays in the loop and periodic, and its expiry has moved by its period exactly as often as
-- it was notified.
pub timer_no_drift :
    {W : Type 0} (change : ℕ → ℕ → W → W) (outcome : ℕ → ℕ → Outcome) (rs : List Round) (id ms : ℕ)
    (xs : List Source) (s : Source) (ys : List Source) (p : Progress W)
    → p.loop.sources ≡ xs ++ s ∷ ys
    → DistinctIds (xs ++ s ∷ ys)
    → p.loop.in_iterate ≡ false
    → IsPeriodic id ms s
    → ((events : ℕ) → outcome id events ≡ continue)
    → HasKept id ms s.expire_ms p.log
        (run change outcome rs p).loop.sources
        (run change outcome rs p).log
unfolding run
timer_no_drift change outcome [] id ms xs s ys p e d i t o = record {
  in_front = xs;
  timer = s;
  behind = ys;
  sources_are = e;
  still_periodic = t;
  expiry_is = refl;
}
timer_no_drift change outcome (r ∷ rs) id ms xs s ys p e d i t o =
    let q = iterate (quiet change outcome) (some r.polled) r.cur p in
    let (l, m, j) =
      iterate_settles change outcome r.polled r.cur p (subst DistinctIds (sym e) d) i in
    let (a, b, c, n) = tick outcome r.polled r.cur id ms s ys t o in
    let s1 = after_tick outcome r.polled r.cur s in
    let xs1 = settled outcome r.polled r.cur xs in
    let ys1 = settled outcome r.polled r.cur ys in
    let now : settled outcome r.polled r.cur (xs ++ s ∷ ys) ≡ xs1 ++ s1 ∷ ys1 =
      settled-append outcome r.polled r.cur xs (s ∷ ys) ∙ ap (λ k. xs1 ++ k) a in
    let e1 : q.loop.sources ≡ xs1 ++ s1 ∷ ys1 = m ∙ ap (settled outcome r.polled r.cur) e ∙ now in
    let d1 = subst DistinctIds now (DistinctIds-settled outcome r.polled r.cur (xs ++ s ∷ ys) d) in
    let counted : times id q.log ≡ (if is_ready r.polled r.cur s then 1 else 0) + times id p.log =
      ap (times id) (l ∙ ap (λ ss. reverse_aux (ready_ids r.polled r.cur ss) p.log) e)
      ∙ times_ready r.polled r.cur id xs s ys p.log t.id_is d n in
    let k = timer_no_drift change outcome rs id ms xs1 s1 ys1 q e1 d1 j b o in
    record {
      in_front = k.in_front;
      timer = k.timer;
      behind = k.behind;
      sources_are = k.sources_are;
      still_periodic = k.still_periodic;
      expiry_is =
          moved (is_ready r.polled r.cur s) ms k.timer.expire_ms s.expire_ms
            (ms * times id (run change outcome rs q).log) (times id p.log)
            (ap (λ x. k.timer.expire_ms + ms * x) (sym counted)
              ∙ k.expiry_is
              ∙ ap (λ x. x + ms * times id (run change outcome rs q).log) c);
    }
