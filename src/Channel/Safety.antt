-- ===== src/Channel/Safety.antt =====
-- What the parts of a step keep of a channel's connection in whatever state an error comes.
use belle_sip.Prelude.{
  ℕ, ◌≡◌, ◌≢◌, ◌∙◌, refl, sym, inl, inr, true, false, List, [], ◌∷◌, Bool-cases, arith,
}
use mathlib.Core.Path.{subst}
use mathlib.Core.List.{Memᴰ}
use belle_sip.Channel.Connection.{
  ConnectionState, init, retry, connect_next, Act, told, closed, Connection, is_ready, is_dead, act,
  later, channel_invoke_state_listener, enter, give_up, handle_error,
}
use belle_sip.Channel.Life.{attempts, faults, waits, waits-later}

-- A connection that has no addresses yet.
pub record IsFresh (c : Connection) : Type 0 where
  pub no_peers : c.peers ≡ []
  pub none_tried : attempts c.acts ≡ []
  pub none_waits : waits c.tasks ≡ false

-- A connection of a channel for which the resolver found `found`.
pub record Safe (c : Connection) (found : List ℕ) : Type 0 where
  pub sound : faults c.acts ≡ false
  pub peer : waits c.tasks ≡ true → c.peers ≢ []
  pub known : (q : ℕ) → Memᴰ q c.peers → Memᴰ q found
  pub tried : (q : ℕ) → Memᴰ q (attempts c.acts) → Memᴰ q found
  pub early : c.state ≡ init → IsFresh c

-- The state changes, and acts that do not matter are done.
pub moved :
    (s : ConnectionState) (acts : List Act) (c : Connection) (found : List ℕ)
    → s ≢ init
    → attempts acts ≡ attempts c.acts
    → faults acts ≡ faults c.acts
    → Safe c found
    → Safe (record c { state = s; acts = acts }) found
moved s acts c found n a f i = record {
  sound = f ∙ i.sound;
  peer = i.peer;
  known = i.known;
  tried = λ q m. i.tried q (subst (λ l. Memᴰ q l) a m);
  early = λ e. absurd (n e);
}

moved-IsFresh :
    (s : ConnectionState) (acts : List Act) (c : Connection)
    → attempts acts ≡ attempts c.acts
    → IsFresh c
    → IsFresh (record c { state = s; acts = acts })
moved-IsFresh s acts c a k = record {
  no_peers = k.no_peers;
  none_tried = a ∙ k.none_tried;
  none_waits = k.none_waits;
}

pub listener-Safe :
    (c : Connection) (found : List ℕ) → Safe c found → Safe (channel_invoke_state_listener c) found
unfolding channel_invoke_state_listener
listener-Safe c found i = elim (Bool-cases (is_dead c.state)) [
  | inl d ↦
      rw (d, channel_invoke_state_listener)
        (moved c.state (told c.state ∷ closed ∷ c.acts) c found (λ e. ground (arith, d, e)) refl
          refl i)
  | inr d ↦
      rw (d, channel_invoke_state_listener)
        (record {
          sound = i.sound;
          peer = i.peer;
          known = i.known;
          tried = i.tried;
          early = λ e. moved-IsFresh c.state (told c.state ∷ c.acts) c refl (i.early e);
        })
]

pub listener-IsFresh : (c : Connection) → IsFresh c → IsFresh (channel_invoke_state_listener c)
unfolding channel_invoke_state_listener
listener-IsFresh c k = elim (Bool-cases (is_dead c.state)) [
  | inl d ↦
      rw (d, channel_invoke_state_listener)
        (moved-IsFresh c.state (told c.state ∷ closed ∷ c.acts) c refl k)
  | inr d ↦
      rw (d, channel_invoke_state_listener) (moved-IsFresh c.state (told c.state ∷ c.acts) c refl k)
]

pub enter-Safe :
    (s : ConnectionState) (c : Connection) (found : List ℕ)
    → s ≢ init
    → Safe c found
    → Safe (enter s c) found
unfolding enter
enter-Safe s c found n i =
    listener-Safe (record c { state = s }) found (moved s c.acts c found n refl refl i)

pub enter-IsFresh : (s : ConnectionState) (c : Connection) → IsFresh c → IsFresh (enter s c)
unfolding enter
enter-IsFresh s c k = listener-IsFresh (record c { state = s }) (moved-IsFresh s c.acts c refl k)

give_up-Safe : (c : Connection) (found : List ℕ) → Safe c found → Safe (give_up c) found
unfolding give_up
give_up-Safe c found i = record {
  sound = i.sound;
  peer = λ w. i.peer (sym (waits-later c.tasks).1 ∙ w);
  known = i.known;
  tried = i.tried;
  early = λ e. absurd (ground arith);
}

retry-Safe :
    (p q : ℕ) (rest : List ℕ) (c : Connection) (found : List ℕ)
    → c.peers ≡ p ∷ q ∷ rest
    → Safe c found
    → Safe (later connect_next (act closed (enter retry (record c { peers = q ∷ rest })))) found
unfolding enter channel_invoke_state_listener
retry-Safe p q rest c found e i = record {
  sound = i.sound;
  peer = λ w h. ground arith;
  known = λ r m. i.known r (subst (λ l. Memᴰ r l) (sym e) (Memᴰ.tail m));
  tried = i.tried;
  early = λ h. absurd (ground arith);
}

pub handle_error-Safe :
    (c : Connection) (found : List ℕ) → Safe c found → Safe (handle_error c) found
unfolding handle_error
handle_error-Safe c found i = elim (Bool-cases (is_ready c.state)) [
  | inl r ↦ rw (r, handle_error) (give_up-Safe c found i)
  | inr r ↦ by_peers r c.peers refl
]
  where
    by_peers : is_ready c.state ≡ false → (l : List ℕ) → c.peers ≡ l → Safe (handle_error c) found
    by_peers r [] e = rw (r, handle_error, e) (give_up-Safe c found i)
    by_peers r (p ∷ []) e = rw (r, handle_error, e) (give_up-Safe c found i)
    by_peers r (p ∷ q ∷ rest) e = rw (r, handle_error, e) (retry-Safe p q rest c found e i)

pub handle_error-IsFresh : (c : Connection) → IsFresh c → IsFresh (handle_error c)
unfolding handle_error give_up
handle_error-IsFresh c k =
    let gone : IsFresh (give_up c) = record {
      no_peers = k.no_peers;
      none_tried = k.none_tried;
      none_waits = (waits-later c.tasks).1 ∙ k.none_waits;
    } in
    elim (Bool-cases (is_ready c.state)) [
      | inl r ↦ rw (r, handle_error) gone
      | inr r ↦ rw (r, handle_error, k.no_peers) gone
    ]
