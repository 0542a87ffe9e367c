-- ===== src/Channel/Life.antt =====
-- The life of a channel's connection: what can happen to it, and what holds of it then.
use belle_sip.Prelude.{
  ℕ, ◌≡◌, refl, ◌⊎◌, Bool, true, false, ◌||◌, List, [], ◌∷◌, ◌++◌, if◌then◌else◌, arith,
}
use belle_sip.Channel.Connection.{
  ConnectionState, init, res_in_progress, connecting, retry, ready, error, disconnected, Task,
  connect_next, invoke_listener, Act, told, connect_to, fault, Connection, is_ready,
  channel_set_state, prepare_continue, channel_res_done, run_task, set_ready, force_close,
}

-- The addresses that were tried, the oldest first.
abbrev pub attempts : List Act → List ℕ
attempts [] = []
attempts (connect_to p ∷ l) = attempts l ++ p ∷ []
attempts (_ ∷ l) = attempts l

abbrev pub was_told : (ConnectionState → Bool) → List Act → Bool
was_told f [] = false
was_told f (told s ∷ l) = f s || was_told f l
was_told f (_ ∷ l) = was_told f l

abbrev pub is_error : ConnectionState → Bool
is_error error = true
is_error _ = false

abbrev pub faults : List Act → Bool
faults [] = false
faults (fault ∷ l) = true
faults (_ ∷ l) = faults l

abbrev pub waits : List Task → Bool
waits [] = false
waits (connect_next ∷ l) = true
waits (invoke_listener ∷ l) = waits l

abbrev pub waits_twice : List Task → Bool
waits_twice [] = false
waits_twice (connect_next ∷ l) = waits l
waits_twice (invoke_listener ∷ l) = waits_twice l

abbrev pub behind : List ℕ → List ℕ
behind [] = []
behind (p ∷ ps) = ps

-- The addresses that will still be tried if nothing but errors comes.
abbrev pub to_try : Connection → List ℕ
to_try c = if waits c.tasks then c.peers else behind c.peers

abbrev pub is_unresolved : ConnectionState → Bool
is_unresolved init = true
is_unresolved res_in_progress = true
is_unresolved _ = false

-- A connection, whether the resolver still has to answer, and the addresses that it has found.
pub record Life : Type 0 where
  pub connection : Connection
  pub asked : Bool
  pub found : List ℕ

-- `fails_in` are the states in which an error of a socket, or a timeout that is told the channel, can
-- come. The resolver answers once, whatever happens to the channel meanwhile: a forced close does not
-- cancel it. Sockets connect while the channel waits for them.
module _ (connects : ℕ → Bool) (fails_in : ConnectionState → Bool) where
  pub data Step : Life → Life → Type 0 where
    prepare :
        (l : Life)
        → l.connection.state ≡ init
        → Step l (record l { connection = prepare_continue connects l.connection; asked = true })
    resolved :
        (l : Life) (ps : List ℕ)
        → l.asked ≡ true
        → Step l (record {
          connection = channel_res_done connects ps l.connection;
          asked = false;
          found = ps;
        })
    task : (l : Life) → Step l (record l { connection = run_task connects l.connection })
    connected :
        (l : Life)
        → l.connection.state ≡ connecting
        → Step l (record l { connection = set_ready l.connection })
    fail :
        (l : Life)
        → fails_in l.connection.state ≡ true
        → Step l (record l { connection = channel_set_state error l.connection })
    close : (l : Life) → Step l (record l { connection = force_close l.connection })

abbrev pub new_channel : Life
new_channel = record {
  connection = record { state = init; peers = []; tasks = []; acts = [] };
  asked = false;
  found = [];
}

-- The states in which a channel has a socket that works or is about to.
abbrev pub is_up : ConnectionState → Bool
is_up connecting = true
is_up ready = true
is_up _ = false

-- What holds of a connection of which the resolver found `found`.
pub record Inv (c : Connection) (found : List ℕ) : Type 0 where
  pub order : attempts c.acts ++ to_try c ≡ found
  pub once : waits_twice c.tasks ≡ false
  pub waiting : waits c.tasks ≡ true → (c.state ≡ retry) ⊎ (c.state ≡ disconnected)
  pub no_fault : faults c.acts ≡ false
  pub fresh :
      is_unresolved c.state ≡ true
      → (c.peers ≡ []) × (attempts c.acts ≡ []) × (was_told is_error c.acts ≡ false)
  pub ready_told : is_ready c.state ≡ true → was_told is_ready c.acts ≡ true
  pub excused :
      (is_error c.state || was_told is_error c.acts) ≡ true
      → (was_told is_ready c.acts ≡ true) ⊎ (to_try c ≡ [])
  pub peers_left : waits c.tasks ≡ true → (p : ℕ) × (ps : List ℕ) × (c.peers ≡ p ∷ ps)

pub waits-later :
    (l : List Task)
    → (waits (l ++ connect_next ∷ []) ≡ true) × (waits (l ++ invoke_listener ∷ []) ≡ waits l)
waits-later [] = (refl, refl)
waits-later (connect_next ∷ l) = (refl, refl)
waits-later (invoke_listener ∷ l) = waits-later l

pub twice-later :
    (l : List Task)
    → (waits_twice (l ++ connect_next ∷ []) ≡ waits l)
      × (waits_twice (l ++ invoke_listener ∷ []) ≡ waits_twice l)
twice-later [] = (refl, refl)
twice-later (connect_next ∷ l) = waits-later l
twice-later (invoke_listener ∷ l) = twice-later l

pub waits-none : (l : List Task) → waits l ≡ false → waits_twice l ≡ false
waits-none [] h = refl
waits-none (connect_next ∷ l) h = absurd (ground arith)
waits-none (invoke_listener ∷ l) h = waits-none l h

pub or-right : (a b : Bool) → b ≡ true → (a || b) ≡ true
or-right true b h = refl
or-right false b h = h
