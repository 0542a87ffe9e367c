-- ===== src/Tests/Loop.antt =====
-- The main loop with a timer of 100 ms and a socket.
use mathlib.Core.List.{reverse_aux}
use belle_sip.Prelude.{
  ℕ, ◌≡◌, ◌+◌, refl, inl, true, false, ◌==◌, none, some, List, [], ◌∷◌, length, if◌then◌else◌,
  arith,
}
use belle_sip.Loop.Sources.{Source}
use belle_sip.Loop.Iterate.{create, remove, Outcome, stop, continue, Notify, Progress, iterate}
use belle_sip.Loop.Notified.{quiet, settled, ready_ids}
use belle_sip.Loop.Iteration.{iterate_settles}
use belle_sip.Loop.Drift.{IsPeriodic, Round, HasKept, run, timer_no_drift}
use belle_sip.Loop.Invariant.{IsWf, iterate-IsWf}

abbrev timer : Source
timer = record {
  id = 1;
  has_fd = false;
  timeout = some 100;
  expire_ms = 1100;
  revents = 0;
  cancelled = false;
  expired = false;
  oneshot = false;
  notify_required = false;
}

abbrev socket : Source
socket = record timer { id = 2; has_fd = true; timeout = none; expire_ms = 0 }

abbrev loop_of : List Source → Progress ℕ
loop_of ss = record {
  loop = record { sources = ss; nsources = length ss; next_id = 3; in_iterate = false };
  world = 0;
  log = [];
}

abbrev readable : ℕ → ℕ
readable id = if id == 2 then 1 else 0

abbrev count : ℕ → ℕ → ℕ → ℕ
count id events n = n + 1

-- The socket's callback says stop.
abbrev stop_socket : ℕ → ℕ → Outcome
stop_socket id events = if id == 2 then stop else continue

iterate_settles_example :
    let p = loop_of (timer ∷ socket ∷ []) in
    let q = iterate (quiet count stop_socket) (some readable) 1150 p in
    (q.log ≡ reverse_aux (ready_ids readable 1150 p.loop.sources) p.log)
    × (q.loop.sources ≡ settled stop_socket readable 1150 p.loop.sources)
    × (q.loop.in_iterate ≡ false)
iterate_settles_example =
    iterate_settles count stop_socket readable 1150 (loop_of (timer ∷ socket ∷ []))
      ((ground arith, tt), (tt, tt)) refl

timer-IsPeriodic : IsPeriodic 1 100 timer
timer-IsPeriodic = record {
  id_is = refl;
  no_fd = refl;
  period = refl;
  live = refl;
  periodic = refl;
  events = inl refl;
}

-- poll reports the socket, then nothing.
abbrev rounds : List Round
rounds =
    record { polled = readable; cur = 1150 }
    ∷ record { polled = λ id. 0; cur = 1160 }
    ∷ record { polled = λ id. 0; cur = 1290 }
    ∷ []

abbrev timer_and_socket : Progress ℕ
timer_and_socket = loop_of (socket ∷ timer ∷ [])

timer_no_drift_example :
    HasKept 1 100 1100 timer_and_socket.log
      (run count stop_socket rounds timer_and_socket).loop.sources
      (run count stop_socket rounds timer_and_socket).log
timer_no_drift_example =
    timer_no_drift count stop_socket rounds 1 100 (socket ∷ []) timer [] timer_and_socket refl
      ((ground arith, tt), (tt, tt)) refl timer-IsPeriodic (λ events. refl)

-- The timer's callback adds a timer, removes the socket and says continue.
abbrev busy : Notify ℕ
busy id events n = ((n + 1, create 1150 false false 50 ∷ remove 2 ∷ []), continue)

iterate-IsWf_example : IsWf (iterate busy (some readable) 1150 (loop_of (timer ∷ socket ∷ []))).loop
iterate-IsWf_example =
    iterate-IsWf busy (some readable) 1150 (loop_of (timer ∷ socket ∷ [])) (record {
      distinct = ((ground arith, tt), (tt, tt));
      drawn = (omega arith, (omega arith, tt));
      counted = refl;
    })
