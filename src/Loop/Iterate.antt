-- ===== src/Loop/Iterate.antt =====
-- belle_sip_main_loop_iterate. What poll reports, the times that are read and what a callback does
-- are arguments.
use belle_sip.Prelude.{
  ℕ, ◌+◌, ◌-◌, ◌%◌, ◌^◌, min, Bool, true, false, ◌==◌, ◌&&◌, ◌||◌, not, Option, none, some, List,
  [], ◌∷◌, ltb, leb, if◌then◌else◌,
}
use belle_sip.Loop.Sources.{
  Source, Loop, create_source, find_source, remove_source, modify, cancel_source, set_timeout,
}

-- BELLE_SIP_EVENT_READ and BELLE_SIP_EVENT_TIMEOUT
abbrev pub event_read : ℕ
event_read = 1

abbrev pub event_timeout : ℕ
event_timeout = 8

-- Step 1: the earliest time at which a source expires, `none` for (uint64_t)-1.
abbrev sooner : Option ℕ → ℕ → Option ℕ
sooner none e = some e
sooner (some m) e = some (min m e)

abbrev pub deadline : Source → Option ℕ
deadline s =
    if s.cancelled then none else elim s.timeout [ none ↦ none | some ms ↦ some s.expire_ms ]

abbrev sooner_of : Option ℕ → Option ℕ → Option ℕ
sooner_of m none = m
sooner_of m (some e) = sooner m e

unfoldable pub min_time : Option ℕ → List Source → Option ℕ
min_time m [] = m
min_time m (s ∷ ss) = min_time (sooner_of m (deadline s)) ss

-- The duration that poll is given, where (int)diff is negative or there is no timeout: for ever.
unfoldable pub poll_duration : Option ℕ → ℕ → Option ℕ
poll_duration none cur = none
poll_duration (some m) cur =
    if ltb cur m
    then (let d = (m - cur) % 2 ^ 32 in if ltb d (2 ^ 31) then some d else none)
    else some 0

-- Step 2: the source after the results of poll were read, and if it is to be notified.
abbrev pub is_due : ℕ → Source → Bool
is_due cur s = elim s.timeout [ none ↦ false | some ms ↦ leb s.expire_ms cur ]

abbrev pub reported : (ℕ → ℕ) → Source → ℕ
reported polled s = if s.has_fd then (if s.notify_required then event_read else polled s.id) else 0

abbrev note_events : (ℕ → ℕ) → Source → Source
note_events polled s =
    if s.has_fd then record s { revents = reported polled s; notify_required = false } else s

abbrev set_expired : Source → Source
set_expired s = record s {
  expired = true;
  revents = if s.revents == 0 then event_timeout else s.revents;
}

-- The source is live, and poll reported something or its time has come.
abbrev pub is_ready : (ℕ → ℕ) → ℕ → Source → Bool
is_ready polled cur s = not s.cancelled && (not (reported polled s == 0) || is_due cur s)

unfoldable pub examine : (ℕ → ℕ) → ℕ → Source → Source
examine polled cur s =
    if s.cancelled
    then s
    else if is_ready polled cur s
    then set_expired (note_events polled s)
    else note_events polled s

unfoldable pub examine_all : (ℕ → ℕ) → ℕ → List Source → List Source
unfolding examine
examine_all polled cur [] = []
examine_all polled cur (s ∷ ss) = examine polled cur s ∷ examine_all polled cur ss

-- The ids of `to_be_notified`: cancelled sources are on it, to be removed.
unfoldable pub to_be_notified : (ℕ → ℕ) → ℕ → List Source → List ℕ
to_be_notified polled cur [] = []
to_be_notified polled cur (s ∷ ss) =
    let rest = to_be_notified polled cur ss in
    if s.cancelled || is_ready polled cur s then s.id ∷ rest else rest

-- What a callback does to the loop, in order, and what it returns.
pub data Action : Type 0 where
  create : (now : ℕ) → (has_fd oneshot : Bool) → (ms : ℕ) → Action
  remove cancel : ℕ → Action
  rearm : (now id ms : ℕ) → Action

pub data Outcome : Type 0 where
  stop continue continue_without_catchup : Outcome

-- The callback of the source `id`, given the events, in the state `W` of the application.
abbrev pub Notify : Type 0 → Type 0
Notify W = ℕ → ℕ → W → (W × List Action) × Outcome

unfoldable pub perform : Action → Loop → Loop
unfolding create_source remove_source cancel_source set_timeout
perform (create now has_fd oneshot ms) l = create_source now has_fd oneshot ms l
perform (remove id) l = remove_source id l
perform (cancel id) l = cancel_source id l
perform (rearm now id ms) l = set_timeout now id ms l

unfoldable pub perform_all : List Action → Loop → Loop
unfolding perform
perform_all [] l = l
perform_all (a ∷ as') l = perform_all as' (perform a l)

abbrev pub timeout_of : Option ℕ → ℕ
timeout_of none = 0
timeout_of (some ms) = ms

-- After the callback of a source that stays: a timer is started again.
unfoldable pub restart : Outcome → ℕ → Source → Source
restart outcome cur s =
    if s.revents == event_timeout
    then record s {
      expire_ms = elim outcome [
        | continue_without_catchup ↦ cur + timeout_of s.timeout
        | _ ↦ s.expire_ms + timeout_of s.timeout
      ];
      expired = false;
    }
    else s

abbrev stops : Outcome → Bool
stops stop = true
stops _ = false

-- Step 3 for one source, `log` being the ids that were notified, the newest first.
pub record Progress (W : Type 0) : Type 0 where
  pub loop : Loop
  pub world : W
  pub log : List ℕ

unfoldable pub settle : Outcome → Bool → ℕ → ℕ → Loop → Loop
unfolding remove_source modify restart
settle outcome oneshot cur id l =
    if stops outcome || oneshot
    then remove_source id l
    else record l { sources = modify id (restart outcome cur) l.sources }

unfoldable pub notify_one : {W : Type 0} → Notify W → ℕ → ℕ → Progress W → Progress W
unfolding find_source perform_all settle remove_source
notify_one notify cur id p = elim (find_source id p.loop.sources) [
  | none ↦ p
  | some s ↦
      if s.cancelled
      then record p { loop = remove_source id p.loop }
      else (let r = notify id s.revents p.world in
          record {
            loop = settle r.1 s.oneshot cur id (perform_all r.0.1 p.loop);
            world = r.0.0;
            log = id ∷ p.log;
          })
]

unfoldable pub notify_all : {W : Type 0} → Notify W → ℕ → List ℕ → Progress W → Progress W
unfolding notify_one
notify_all notify cur [] p = p
notify_all notify cur (id ∷ ids) p = notify_all notify cur ids (notify_one notify cur id p)

-- `polled` is none where poll fails. A second call from a callback does nothing.
unfoldable pub iterate : {W : Type 0} → Notify W → Option (ℕ → ℕ) → ℕ → Progress W → Progress W
unfolding notify_all examine_all to_be_notified
iterate notify none cur p = p
iterate notify (some polled) cur p =
    if p.loop.in_iterate
    then p
    else (let ids = to_be_notified polled cur p.loop.sources in
        let l1 = record (p.loop) {
          sources = examine_all polled cur p.loop.sources;
          in_iterate = true;
        } in
        let q = notify_all notify cur ids (record p { loop = l1 }) in
        record q { loop = let l = q.loop in record l { in_iterate = false } })
