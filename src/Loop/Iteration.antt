-- ===== src/Loop/Iteration.antt =====
-- One iteration, and a periodic timer over many.
use mathlib.Core.List.{reverse_aux}
use belle_sip.Prelude.{ℕ, ◌≡◌, refl, true, false, some, []}
use belle_sip.Loop.Iterate.{examine_all, Outcome, Progress, iterate}
use belle_sip.Loop.Notified.{DistinctIds, Apart-nil, quiet, settled, ready_ids, notify_all-settled}

-- One iteration, with callbacks that do nothing to the loop: exactly the live sources that poll
-- reported or whose time has come are notified, once each and in the order of the list; cancelled
-- sources and those whose callback says stop leave the list, as do oneshot ones; the timers of the
-- other notified ones are started again, and nothing else changes but the events of polled sources.
pub iterate_settles :
    {W : Type 0} (change : ℕ → ℕ → W → W) (outcome : ℕ → ℕ → Outcome) (polled : ℕ → ℕ) (cur : ℕ)
    (p : Progress W)
    → DistinctIds p.loop.sources
    → p.loop.in_iterate ≡ false
    → let q = iterate (quiet change outcome) (some polled) cur p in
      (q.log ≡ reverse_aux (ready_ids polled cur p.loop.sources) p.log)
      × (q.loop.sources ≡ settled outcome polled cur p.loop.sources)
      × (q.loop.in_iterate ≡ false)
unfolding iterate
iterate_settles change outcome polled cur p d i =
    let ss = p.loop.sources in
    let l1 = record (p.loop) { sources = examine_all polled cur ss; in_iterate = true } in
    let (m, t) =
      notify_all-settled change outcome polled cur ss [] (record p { loop = l1 }) refl
        (Apart-nil ss) d in
    rw i (m, t, refl)
