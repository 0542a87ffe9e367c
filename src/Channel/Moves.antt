-- ===== src/Channel/Moves.antt =====
-- What the parts of a step keep of a channel's connection.
use belle_sip.Prelude.{
  ℕ, ◌≡◌, ◌≢◌, ◌∙◌, refl, ap, ◌⊎◌, inl, inr, Bool, true, false, ◌||◌, List, [], ◌∷◌, ◌++◌,
  Bool-cases, arith,
}
use mathlib.Core.List.{append_assoc}
use belle_sip.Channel.Connection.{
  ConnectionState, init, res_in_progress, res_done, connecting, retry, ready, error, disconnected,
  connect_next, Act, told, connect_to, closed, Connection, act, later, is_ready, is_dead,
  channel_invoke_state_listener, enter, give_up, handle_error,
}
use belle_sip.Channel.Life.{
  attempts, was_told, is_error, faults, waits, waits_twice, behind, to_try, is_unresolved, Inv,
  waits-later, twice-later, or-right,
}

-- A state is entered, other than an unresolved one or an error, and acts that do not matter are done.
pub kept :
    (s : ConnectionState) (acts : List Act) (c : Connection) (found : List ℕ)
    → is_unresolved s ≡ false
    → is_error s ≡ false
    → (waits c.tasks ≡ true → (s ≡ retry) ⊎ (s ≡ disconnected))
    → attempts acts ≡ attempts c.acts
    → faults acts ≡ faults c.acts
    → was_told is_error acts ≡ was_told is_error c.acts
    → (was_told is_ready c.acts ≡ true → was_told is_ready acts ≡ true)
    → (is_ready s ≡ true → was_told is_ready acts ≡ true)
    → Inv c found
    → Inv (record c { state = s; acts = acts }) found
kept s acts c found u e w a f t r y i = record {
  ready_told = y;
  order = ap (λ k. k ++ to_try c) a ∙ i.order;
  once = i.once;
  waiting = w;
  no_fault = f ∙ i.no_fault;
  fresh = λ h. absurd (ground (arith, u, h));
  excused = λ h.
      let k : was_told is_error c.acts ≡ true = ground (arith, e, h, t) in
      elim (i.excused (or-right (is_error c.state) (was_told is_error c.acts) k)) [
        | inl q ↦ inl (r q)
        | inr q ↦ inr q
      ];
  peers_left = i.peers_left;
}

pub enter-Inv :
    (s : ConnectionState) (c : Connection) (found : List ℕ)
    → is_unresolved s ≡ false
    → is_error s ≡ false
    → (waits c.tasks ≡ true → (s ≡ retry) ⊎ (s ≡ disconnected))
    → Inv c found
    → Inv (enter s c) found
unfolding enter channel_invoke_state_listener
enter-Inv init c found u e w i = absurd (ground arith)
enter-Inv res_in_progress c found u e w i = absurd (ground arith)
enter-Inv res_done c found u e w i =
    kept res_done (told res_done ∷ c.acts) c found u e w refl refl refl (λ h. h)
      (λ h. absurd (ground arith)) i
enter-Inv connecting c found u e w i =
    kept connecting (told connecting ∷ c.acts) c found u e w refl refl refl (λ h. h)
      (λ h. absurd (ground arith)) i
enter-Inv retry c found u e w i =
    kept retry (told retry ∷ c.acts) c found u e w refl refl refl (λ h. h)
      (λ h. absurd (ground arith)) i
enter-Inv ready c found u e w i =
    kept ready (told ready ∷ c.acts) c found u e w refl refl refl (λ h. refl) (λ h. refl) i
enter-Inv error c found u e w i = absurd (ground arith)
enter-Inv disconnected c found u e w i =
    kept disconnected (told disconnected ∷ closed ∷ c.acts) c found u e w refl refl refl (λ h. h)
      (λ h. absurd (ground arith)) i

-- Nothing waits in a connection that is connecting or ready.
pub nothing_waits :
    (c : Connection) (found : List ℕ)
    → Inv c found
    → (c.state ≢ retry)
    → (c.state ≢ disconnected)
    → waits c.tasks ≡ false
nothing_waits c found i a b = elim (Bool-cases (waits c.tasks)) [
  | inl w ↦ absurd (ground (arith, i.waiting w, a, b))
  | inr w ↦ w
]

-- Giving up is excused by a channel that was ready or has no other address.
pub give_up-Inv :
    (c : Connection) (found : List ℕ)
    → Inv c found
    → waits c.tasks ≡ false
    → is_unresolved c.state ≡ false
    → (was_told is_ready c.acts ≡ true) ⊎ (to_try c ≡ [])
    → Inv (give_up c) found
unfolding give_up
give_up-Inv c found i w u x =
    let k = (waits-later c.tasks).1 ∙ w in
    record {
      order = rw k (rw w at i.order);
      once = (twice-later c.tasks).1 ∙ i.once;
      waiting = λ h. absurd (ground (arith, h, k));
      no_fault = i.no_fault;
      ready_told = λ h. absurd (ground arith);
      fresh = λ h. absurd (ground arith);
      excused = λ h. rw k (rw w at x);
      peers_left = λ h. absurd (ground (arith, h, k));
    }

-- The next address is tried later.
pub retry-Inv :
    (p q : ℕ) (rest : List ℕ) (c : Connection) (found : List ℕ)
    → Inv c found
    → waits c.tasks ≡ false
    → c.peers ≡ p ∷ q ∷ rest
    → Inv (later connect_next (act closed (enter retry (record c { peers = q ∷ rest })))) found
unfolding enter channel_invoke_state_listener
retry-Inv p q rest c found i w e =
    let k = (waits-later c.tasks).0 in
    let o : attempts c.acts ++ behind c.peers ≡ found = rw w at i.order in
    record {
      order = rw k (rw e at o);
      once = (twice-later c.tasks).0 ∙ w;
      waiting = λ h. inl refl;
      no_fault = i.no_fault;
      ready_told = λ h. absurd (ground arith);
      fresh = λ h. absurd (ground arith);
      excused = λ h. elim (i.excused (or-right (is_error c.state) (was_told is_error c.acts) h)) [
        | inl r ↦ inl r
        | inr n ↦ absurd (let n' : behind c.peers ≡ [] = rw w at n in ground (arith, rw e at n'))
      ];
      peers_left = λ h. (q, rest, refl);
    }

pub handle_error-Inv :
    (c : Connection) (found : List ℕ)
    → Inv c found
    → waits c.tasks ≡ false
    → is_unresolved c.state ≡ false
    → Inv (handle_error c) found
unfolding handle_error
handle_error-Inv c found i w u = elim (Bool-cases (is_ready c.state)) [
  | inl r ↦ rw (r, handle_error) (give_up-Inv c found i w u (inl (i.ready_told r)))
  | inr r ↦ by_peers r c.peers refl
]
  where
    by_peers : is_ready c.state ≡ false → (l : List ℕ) → c.peers ≡ l → Inv (handle_error c) found
    by_peers r [] e = rw (r, handle_error, e) (give_up-Inv c found i w u (inr (rw (w, e) refl)))
    by_peers r (p ∷ []) e =
        rw (r, handle_error, e) (give_up-Inv c found i w u (inr (rw (w, e) refl)))
    by_peers r (p ∷ q ∷ rest) e = rw (r, handle_error, e) (retry-Inv p q rest c found i w e)

-- The address `p` is the next to try.
pub record IsNext (c : Connection) (p : ℕ) (rest found : List ℕ) : Type 0 where
  pub at_p : c.peers ≡ p ∷ rest
  pub in_order : attempts c.acts ++ p ∷ rest ≡ found
  pub none_waits : waits c.tasks ≡ false
  pub twice : waits_twice c.tasks ≡ false
  pub sound : faults c.acts ≡ false
  pub blameless : was_told is_error c.acts ≡ true → was_told is_ready c.acts ≡ true

abbrev pub trying : ℕ → Connection → Connection
trying p c = record c { state = connecting; acts = connect_to p ∷ told connecting ∷ c.acts }

pub trying-Inv :
    (c : Connection) (p : ℕ) (rest found : List ℕ) → IsNext c p rest found → Inv (trying p c) found
trying-Inv c p rest found n =
    let k = n.none_waits in
    record {
      order = rw (k, n.at_p) (append_assoc (attempts c.acts) (p ∷ []) rest ∙ n.in_order);
      once = n.twice;
      waiting = λ h. absurd (ground (arith, h, k));
      no_fault = n.sound;
      fresh = λ h. absurd (ground arith);
      ready_told = λ h. absurd (ground arith);
      excused = λ h. inl (n.blameless h);
      peers_left = λ h. absurd (ground (arith, h, k));
    }

-- The listeners are told of the state that the channel is in.
pub told-Inv :
    (acts : List Act) (c : Connection) (found : List ℕ)
    → attempts acts ≡ attempts c.acts
    → faults acts ≡ faults c.acts
    → ((f : ConnectionState → Bool) → was_told f acts ≡ (f c.state || was_told f c.acts))
    → Inv c found
    → Inv (record c { acts = acts }) found
told-Inv acts c found a f t i = record {
  order = ap (λ k. k ++ to_try c) a ∙ i.order;
  once = i.once;
  waiting = i.waiting;
  no_fault = f ∙ i.no_fault;
  fresh = λ h. let (p, q, r) = i.fresh h in (p, a ∙ q, t is_error ∙ blameless c.state h ∙ r);
  ready_told =
      λ h. t is_ready ∙ or-right (is_ready c.state) (was_told is_ready c.acts) (i.ready_told h);
  excused = λ h. elim (i.excused (ground (arith, h, t is_error))) [
    | inl q ↦ inl (t is_ready ∙ or-right (is_ready c.state) (was_told is_ready c.acts) q)
    | inr q ↦ inr q
  ];
  peers_left = i.peers_left;
}
  where
    blameless :
        (s : ConnectionState)
        → is_unresolved s ≡ true
        → (is_error s || was_told is_error c.acts) ≡ was_told is_error c.acts
    blameless init h = refl
    blameless res_in_progress h = refl
    blameless error h = absurd (ground arith)
    blameless res_done h = refl
    blameless connecting h = refl
    blameless retry h = refl
    blameless ready h = refl
    blameless disconnected h = refl

pub listener-Inv :
    (c : Connection) (found : List ℕ) → Inv c found → Inv (channel_invoke_state_listener c) found
unfolding channel_invoke_state_listener
listener-Inv c found i = elim (Bool-cases (is_dead c.state)) [
  | inl d ↦
      rw (d, channel_invoke_state_listener)
        (told-Inv (told c.state ∷ closed ∷ c.acts) c found refl refl (λ f. refl) i)
  | inr d ↦
      rw (d, channel_invoke_state_listener)
        (told-Inv (told c.state ∷ c.acts) c found refl refl (λ f. refl) i)
]
