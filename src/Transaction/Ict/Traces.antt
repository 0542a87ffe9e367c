-- ===== src/Transaction/Ict/Traces.antt =====
-- What holds over every history of an INVITE client transaction.
use belle_sip.Prelude.{
  ℕ, zero, suc, ◌+◌, ◌*◌, ◌^◌, ◌≤◌, ◌≡◌, refl, ap, ◌∙◌, Reach, here, next, Bool, true, false, ◌⊎◌,
  some, List, [], ◌∷◌, leb, u32, pow_two, is_some, count_if, if◌then◌else◌, arith,
}
use belle_sip.Transaction.Base.{
  State, init, calling, completed, accepted, proceeding, terminated, Response, queue_ack, Effect,
  is_register, is_final_notice, is_failure_notice, is_timeout_notice, is_end_notice, repeat,
  is_request, is_terminated,
}
use belle_sip.Transaction.Client.{alarm, ready, disconnected, error, other}
use belle_sip.Transaction.Ict.{
  ict_on_channel, ict_alarmed, ict_on_channel-failed, Ict, ict_send_request, ict_on_response,
  ict_on_timer_A, ict_on_timer_B, ict_on_timer_D, ict_on_timer_M, ict_terminate,
}
use belle_sip.Transaction.Ict.Invariant.{
  Step, send, receive, fire_A, fire_B, fire_D, fire_M, quit, change, IsBare, Inv, Step-Inv,
  alarmed-Inv,
}

-- The diagram of RFC 3261, 17.1.1.2, as amended by RFC 6026, by event: a request that is sent, a
-- response, and the timers. The user's termination and a failure of the channel lead to TERMINATED.
abbrev pub is_edge : {t u : Ict} → Step t u → State → State → Bool
is_edge (send t h) init calling = true
is_edge (change t ready) init calling = true
is_edge (receive t r) calling proceeding = true
is_edge (receive t r) calling completed = true
is_edge (receive t r) calling accepted = true
is_edge (receive t r) proceeding completed = true
is_edge (receive t r) proceeding accepted = true
is_edge (fire_B t silent h) calling terminated = true
is_edge (fire_D t h) completed terminated = true
is_edge (fire_M t h) accepted terminated = true
is_edge (quit t) _ terminated = true
is_edge (change t disconnected) _ terminated = true
is_edge (change t error) _ terminated = true
is_edge _ _ _ = false

-- A terminated transaction is inert: no event changes it or its log.
pub ict_terminated_absorbs : {t u : Ict} → Step t u → Inv t → t.base.state ≡ terminated → u ≡ t
unfolding ict_on_response ict_terminate ict_on_channel
ict_terminated_absorbs (send t h) v e = ground arith
ict_terminated_absorbs (receive t r) v e = ground arith
ict_terminated_absorbs (fire_A t h) v e = ground arith
ict_terminated_absorbs (fire_B t silent h) v e = ground arith
ict_terminated_absorbs (fire_D t h) v e = ground arith
ict_terminated_absorbs (fire_M t h) v e = ground arith
ict_terminated_absorbs (quit t) v e = ground arith
ict_terminated_absorbs (change t ready) v e = ground arith
ict_terminated_absorbs (change t disconnected) v e = ground arith
ict_terminated_absorbs (change t error) v e = ground arith
ict_terminated_absorbs (change t other) v e = ground arith

abbrev pub is_pending : State → Bool
is_pending init = true
is_pending calling = true
is_pending proceeding = true
is_pending _ = false

-- What the listener has been told so far, by the state.
pub record Notices (t : Ict) : Type 0 where
  pub pending : is_pending t.base.state ≡ true → count_if is_final_notice t.base.log ≡ 0
  pub accepted_only : t.base.state ≡ accepted → count_if is_failure_notice t.base.log ≡ 0
  pub untimed :
      (count_if is_timeout_notice t.base.log ≡ 0)
      ⊎ (count_if is_final_notice t.base.log ≡ 0) × (t.base.state ≡ terminated)
  pub failure_is_final : count_if is_failure_notice t.base.log ≤ count_if is_final_notice t.base.log
  pub one_failure : count_if is_failure_notice t.base.log ≤ 1
  pub one_timeout : count_if is_timeout_notice t.base.log ≤ 1
  pub one_end : count_if is_end_notice t.base.log ≡ (if is_terminated t.base.state then 1 else 0)

alarmed-Notices : (t : Ict) → Inv t → Notices t → Notices (ict_alarmed t)
unfolding alarm
alarmed-Notices t v n = ground arith

quit-Notices : (t : Ict) → Inv t → Notices t → Notices (ict_terminate t)
unfolding ict_terminate
quit-Notices t v n = ground arith

Step-Notices : {t u : Ict} → Step t u → Inv t → Notices t → Notices u
unfolding ict_send_request ict_on_response ict_on_timer_A ict_on_timer_B ict_on_timer_D
    ict_on_timer_M ict_terminate ict_on_channel
Step-Notices (send t h) v n = ground arith
Step-Notices (receive t r) v n = ground arith
Step-Notices (fire_A t h) v n = ground arith
Step-Notices (fire_B t silent h) v n = ground arith
Step-Notices (fire_D t h) v n = ground arith
Step-Notices (fire_M t h) v n = ground arith
Step-Notices (quit t) v n = quit-Notices t v n
Step-Notices (change t ready) v n = ground arith
Step-Notices (change t disconnected) v n =
    rw ((ict_on_channel-failed t).0)
      (quit-Notices (ict_alarmed t) (alarmed-Inv t v) (alarmed-Notices t v n))
Step-Notices (change t error) v n =
    rw ((ict_on_channel-failed t).1)
      (quit-Notices (ict_alarmed t) (alarmed-Inv t v) (alarmed-Notices t v n))
Step-Notices (change t other) v n = ground arith

-- A transaction as belle_sip_ict_new makes it, once its channel is there.
pub record IsNew (t : Ict) : Type 0 where
  pub initial : t.base.state ≡ init
  pub bare : IsBare t
  pub silent : t.base.log ≡ []
  pub connected : is_some t.base.channel ≡ true
  pub untimed : t.base.timed_out ≡ false
  pub inviting : is_register t.base.method ≡ false

new-Inv : (t : Ict) → IsNew t → Inv t
new-Inv t n = ground arith

new-Notices : (t : Ict) → IsNew t → Notices t
new-Notices t n = ground arith

-- After any history of a new transaction, its invariant holds.
pub ict_invariant : {t u : Ict} → IsNew t → Reach Step t u → Inv u
ict_invariant {t} n here = new-Inv t n
ict_invariant n (next r s) = Step-Inv s (ict_invariant n r)

-- After any history of a new transaction, the listener's notices are those of `Notices`.
pub ict-Notices : {t u : Ict} → IsNew t → Reach Step t u → Notices u
ict-Notices {t} n here = new-Notices t n
ict-Notices n (next r s) = Step-Notices s (ict_invariant n r) (ict-Notices n r)

-- `k` firings of timer A.
abbrev pub fire_A_times : ℕ → Ict → Ict
fire_A_times zero t = t
fire_A_times (suc k) t = fire_A_times k (ict_on_timer_A t).0

fire_A-calling :
    (t : Ict) (ms : ℕ)
    → t.base.state ≡ calling
    → is_some t.base.channel ≡ true
    → t.a ≡ some ms
    → let u = (ict_on_timer_A t).0 in
      (u.base.state ≡ calling)
      × (is_some u.base.channel ≡ true)
      × (u.a ≡ some (u32 (2 * ms)))
      × (count_if is_request u.base.log ≡ count_if is_request t.base.log + 1)
unfolding ict_on_timer_A
fire_A-calling t ms h c e = ground arith

-- While no response comes, k firings of timer A retransmit the request k times and multiply the
-- timer's value by 2 ^ k, in unsigned int arithmetic.
pub timer_A_backoff :
    (k : ℕ) (t : Ict) (ms : ℕ)
    → t.base.state ≡ calling
    → is_some t.base.channel ≡ true
    → t.a ≡ some (u32 ms)
    → let u = fire_A_times k t in
      (u.base.state ≡ calling)
      × (u.a ≡ some (u32 (2 ^ k * ms)))
      × (count_if is_request u.base.log ≡ count_if is_request t.base.log + k)
timer_A_backoff zero t ms h c e = ground arith
timer_A_backoff (suc k) t ms h c e =
    let (h', c', e', n) = fire_A-calling t (u32 ms) h c e in
    let (s, a, m) = timer_A_backoff k (ict_on_timer_A t).0 (2 * ms) h' c' (ground arith) in
    (s, a ∙ ap (λ n. some (u32 n)) (pow_two k ms), omega arith)

-- The responses that arrive, in order.
abbrev pub receive_all : List Response → Ict → Ict
receive_all [] t = t
receive_all (r ∷ rs) t = receive_all rs (ict_on_response t r)

abbrev pub is_failure : Response → Bool
is_failure r = leb 300 r.code

abbrev pub with_log : (List Effect → List Effect) → Ict → Ict
with_log f t = record t { base = let b = t.base in record b { log = f b.log } }

acked :
    (t : Ict) (r r0 : Response)
    → t.base.state ≡ completed
    → is_some t.base.channel ≡ true
    → t.ack ≡ some r0
    → ict_on_response t r ≡ with_log (repeat (count_if is_failure (r ∷ [])) (queue_ack r0)) t
unfolding ict_on_response
acked t r r0 h c e = ground arith

repeat-add :
    (r : Response) (rs : List Response) (e : Effect) (l : List Effect)
    → repeat (count_if is_failure rs) e (repeat (count_if is_failure (r ∷ [])) e l)
      ≡ repeat (count_if is_failure (r ∷ rs)) e l
repeat-add r rs e l = ground arith

-- In the COMPLETED state each further final response other than 2xx is answered by the same ACK,
-- and nothing else happens.
pub retransmissions_acked :
    (rs : List Response) (t : Ict) (r0 : Response)
    → t.base.state ≡ completed
    → is_some t.base.channel ≡ true
    → t.ack ≡ some r0
    → receive_all rs t ≡ with_log (repeat (count_if is_failure rs) (queue_ack r0)) t
retransmissions_acked [] t r0 h c e = refl
retransmissions_acked (r ∷ rs) t r0 h c e =
    let one = repeat (count_if is_failure (r ∷ [])) (queue_ack r0) in
    ap (receive_all rs) (acked t r r0 h c e)
    ∙ retransmissions_acked rs (with_log one t) r0 h c e
    ∙ ap (λ l. with_log (λ _. l) t) (repeat-add r rs (queue_ack r0) t.base.log)
