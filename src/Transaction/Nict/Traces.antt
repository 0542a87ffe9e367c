-- ===== src/Transaction/Nict/Traces.antt =====
-- How a non-INVITE client transaction moves, retransmits, times out and ends.
use belle_sip.Prelude.{
  ℕ, zero, suc, ◌+◌, ◌*◌, ◌^◌, ◌≤◌, ◌<◌, min, ◌≡◌, ap, ◌∙◌, ◌⊎◌, Bool, true, false, some, u32,
  pow_two, min_double, is_some, count_if, if◌then◌else◌, arith,
}
use belle_sip.Transaction.Base.{
  State, init, trying, completed, proceeding, terminated, Response, is_register, is_final_notice,
  is_timeout_notice, is_request,
}
use belle_sip.Transaction.Client.{ready, disconnected, error, other}
use belle_sip.Transaction.Nict.{
  nict_on_channel, Nict, nict_send_request, nict_on_response, nict_on_timer_E, nict_on_timer_F,
  nict_on_timer_K, nict_terminate,
}
use belle_sip.Transaction.Nict.Invariant.{
  Step, send, receive, fire_E, fire_F, fire_K, quit, change, Inv, IsBare, is_open,
}

-- The diagram of RFC 3261, 17.1.2.2.
abbrev pub is_edge : State → State → Bool
is_edge init trying = true
is_edge trying proceeding = true
is_edge trying completed = true
is_edge proceeding completed = true
is_edge _ terminated = true
is_edge _ _ = false

-- Every event keeps the state or follows an edge of the diagram.
pub nict_moves :
    {t u : Nict}
    → Step t u
    → (u.base.state ≡ t.base.state) ⊎ (is_edge t.base.state u.base.state ≡ true)
unfolding nict_send_request nict_on_response nict_on_timer_E nict_on_timer_F nict_on_timer_K
    nict_terminate nict_on_channel
nict_moves (send t h) = ground arith
nict_moves (receive t r) = ground arith
nict_moves (fire_E t h) = ground arith
nict_moves (fire_F t silent h) = ground arith
nict_moves (fire_K t h) = ground arith
nict_moves (quit t) = ground arith
nict_moves (change t ready) = ground arith
nict_moves (change t disconnected) = ground arith
nict_moves (change t error) = ground arith
nict_moves (change t other) = ground arith

-- A terminated transaction is inert: no event changes it or its log, unless timer F has marked it.
pub nict_terminated_absorbs :
    {t u : Nict} → Step t u → Inv t → t.base.state ≡ terminated → t.base.timed_out ≡ false → u ≡ t
unfolding nict_on_response nict_terminate nict_on_channel
nict_terminated_absorbs (send t h) v e m = ground arith
nict_terminated_absorbs (receive t r) v e m = ground arith
nict_terminated_absorbs (fire_E t h) v e m = ground arith
nict_terminated_absorbs (fire_F t silent h) v e m = ground arith
nict_terminated_absorbs (fire_K t h) v e m = ground arith
nict_terminated_absorbs (quit t) v e m = ground arith
nict_terminated_absorbs (change t ready) v e m = ground arith
nict_terminated_absorbs (change t disconnected) v e m = ground arith
nict_terminated_absorbs (change t error) v e m = ground arith
nict_terminated_absorbs (change t other) v e m = ground arith

-- A final response to an open transaction ends it: the listener is told once, and the transaction
-- is terminated at once over a reliable channel and by timer K over another.
pub final_response_ends :
    (t : Nict) (r : Response)
    → Inv t
    → is_open t.base.state ≡ true
    → 200 ≤ r.code
    → let u = nict_on_response t r in
      ((nict_on_timer_K u).0.base.state ≡ terminated)
      × (u.base.state ≡ (if is_some u.k then completed else terminated))
      × (count_if is_final_notice u.base.log ≡ count_if is_final_notice t.base.log + 1)
unfolding nict_on_response nict_on_timer_K
final_response_ends t r v o h = ground arith

-- When timer F fires on an open transaction that is not a REGISTER, the listener is told of the
-- timeout once, whatever the channel answers, and the transaction ends with no timer left.
pub timer_F_outcome :
    (t : Nict) (silent : Bool)
    → is_open t.base.state ≡ true
    → is_register t.base.method ≡ false
    → let u = (nict_on_timer_F t silent).0 in
      (u.base.state ≡ terminated)
      × IsBare u
      × (count_if is_timeout_notice u.base.log ≡ count_if is_timeout_notice t.base.log + 1)
unfolding nict_on_timer_F
timer_F_outcome t silent o m = ground arith

-- When timer F fires on an open REGISTER transaction, it stays open and nobody is told, whatever
-- the channel answers; the transaction is marked as timed out if the channel has been silent, and
-- no timer is left to end it but those it had.
pub timer_F_register :
    (t : Nict) (silent : Bool)
    → is_open t.base.state ≡ true
    → is_register t.base.method ≡ true
    → let u = (nict_on_timer_F t silent).0 in
      (u.base.state ≡ t.base.state)
      × (u.base.log ≡ t.base.log)
      × (u.base.timed_out ≡ (if silent then true else t.base.timed_out))
      × (u.k ≡ t.k)
      × (u.e ≡ t.e)
unfolding nict_on_timer_F
timer_F_register t silent o m = ground arith

-- `n` firings of timer E.
abbrev pub fire_E_times : ℕ → Nict → Nict
fire_E_times zero t = t
fire_E_times (suc n) t = fire_E_times n (nict_on_timer_E t).0

fire_E-trying :
    (t : Nict) (ms : ℕ)
    → t.base.state ≡ trying
    → is_some t.base.channel ≡ true
    → t.e ≡ some ms
    → let u = (nict_on_timer_E t).0 in
      (u.base.state ≡ trying)
      × (is_some u.base.channel ≡ true)
      × (u.e ≡ some (min (u32 (2 * ms)) t.base.config.t2))
      × (u.base.config ≡ t.base.config)
      × (count_if is_request u.base.log ≡ count_if is_request t.base.log + 1)
unfolding nict_on_timer_E
fire_E-trying t ms h c e = ground arith

-- While no response comes, n firings of timer E retransmit the request n times, and its value is
-- 2 ^ n times the first, but at most T2, if twice T2 fits an unsigned int.
pub timer_E_backoff :
    (n : ℕ) (t : Nict) (ms t2 : ℕ)
    → t.base.state ≡ trying
    → is_some t.base.channel ≡ true
    → t.e ≡ some (min ms t2)
    → t.base.config.t2 ≡ t2
    → t2 < 2 ^ 31
    → let u = fire_E_times n t in
      (u.base.state ≡ trying)
      × (u.e ≡ some (min (2 ^ n * ms) t2))
      × (count_if is_request u.base.log ≡ count_if is_request t.base.log + n)
timer_E_backoff zero t ms t2 h c e g b = ground arith
timer_E_backoff (suc n) t ms t2 h c e g b =
    let (h', c', e', g', m) = fire_E-trying t (min ms t2) h c e in
    let d : (nict_on_timer_E t).0.e ≡ some (min (2 * ms) t2) = ground (arith, min_double ms t2) in
    let (s, a, k) =
      timer_E_backoff n (nict_on_timer_E t).0 (2 * ms) t2 h' c' d (ap (λ c. c.t2) g' ∙ g) b in
    (s, a ∙ ap (λ x. some (min x t2)) (pow_two n ms), omega arith)
