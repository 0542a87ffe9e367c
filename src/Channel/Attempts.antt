-- ===== src/Channel/Attempts.antt =====
-- The addresses that a channel tries, over its life.
use belle_sip.Prelude.{
  ℕ, ◌≡◌, ◌∙◌, refl, sym, ap, ◌⊎◌, inl, inr, Bool, true, false, List, [], ◌∷◌, ◌++◌, Bool-cases,
  arith, Reach, here, next,
}
use mathlib.Core.List.{append-nil}
use belle_sip.Channel.Connection.{
  init, res_in_progress, res_done, ready, disconnected, Task, connect_next, invoke_listener, told,
  Connection, is_ready, channel_invoke_state_listener, enter, give_up, handle_error,
  channel_set_state, connect, channel_resolve, prepare_continue, channel_res_done, run_task,
  set_ready, force_close,
}
use belle_sip.Channel.Life.{
  attempts, was_told, is_error, faults, waits, to_try, Life, is_up, Step, new_channel, Inv,
  waits-later, twice-later, waits-none, or-right, prepare, resolved, task, connected, fail, close,
}
use belle_sip.Channel.Moves.{
  enter-Inv, nothing_waits, handle_error-Inv, IsNext, trying, trying-Inv, listener-Inv,
}

-- A connection of which the resolver has not answered, or that was closed before.
record IsPending (c : Connection) : Type 0 where
  states : (c.state ≡ res_in_progress) ⊎ (c.state ≡ disconnected)
  no_peers : c.peers ≡ []
  none_tried : attempts c.acts ≡ []
  no_error : was_told is_error c.acts ≡ false
  none_waits : waits c.tasks ≡ false

listener_pending : (c : Connection) → IsPending c → IsPending (channel_invoke_state_listener c)
unfolding channel_invoke_state_listener
listener_pending c q = elim q.states [
  | inl e ↦ rw e (record {
    states = inl refl;
    no_peers = q.no_peers;
    none_tried = q.none_tried;
    no_error = q.no_error;
    none_waits = q.none_waits;
  })
  | inr e ↦ rw e (record {
    states = inr refl;
    no_peers = q.no_peers;
    none_tried = q.none_tried;
    no_error = q.no_error;
    none_waits = q.none_waits;
  })
]

close_pending : (c : Connection) → IsPending c → IsPending (force_close c)
unfolding force_close channel_set_state enter
close_pending c q =
    listener_pending (record c { state = disconnected })
      (record {
        states = inr refl;
        no_peers = q.no_peers;
        none_tried = q.none_tried;
        no_error = q.no_error;
        none_waits = q.none_waits;
      })

module _ (connects : ℕ → Bool) where
  connect-Inv :
      (c : Connection) (p : ℕ) (rest found : List ℕ)
      → IsNext c p rest found
      → Inv (connect connects c) found
  unfolding connect enter channel_invoke_state_listener channel_set_state
  connect-Inv c p rest found n =
      let i = trying-Inv c p rest found n in
      elim (Bool-cases (connects p)) [
        | inl e ↦ rw (n.at_p, e) i
        | inr e ↦ rw (n.at_p, e) (handle_error-Inv (trying p c) found i n.none_waits refl)
      ]

  prepare-Inv :
      (c : Connection) (found : List ℕ)
      → c.state ≡ init
      → Inv c found
      → Inv (prepare_continue connects c) found
  unfolding prepare_continue channel_resolve channel_set_state enter channel_invoke_state_listener
  prepare-Inv c found e i =
      let w = nothing_waits c found i (ground (arith, e)) (ground (arith, e)) in
      let (p, a, t) = i.fresh (rw e refl) in
      rw e (record {
        order = i.order;
        once = i.once;
        waiting = λ h. absurd (ground (arith, h, w));
        no_fault = i.no_fault;
        fresh = λ h. (p, a, t);
        ready_told = λ h. absurd (ground arith);
        excused = λ h. absurd (ground (arith, h, t));
        peers_left = i.peers_left;
      })

  resolved-Inv :
      (ps : List ℕ) (c : Connection) (found : List ℕ)
      → IsPending c
      → Inv c found
      → Inv (channel_res_done connects ps c) ps
  unfolding channel_res_done channel_set_state handle_error enter channel_invoke_state_listener
      prepare_continue
  resolved-Inv [] c found q i =
      let k = (waits-later c.tasks).1 ∙ q.none_waits in
      let n : is_ready c.state ≡ false = ground (arith, q.states) in
      rw (n, q.no_peers, give_up)
        (record {
          order = rw (k, q.none_tried, q.no_peers) refl;
          once = (twice-later c.tasks).1 ∙ i.once;
          waiting = λ h. absurd (ground (arith, h, k));
          no_fault = i.no_fault;
          fresh = λ h. absurd (ground arith);
          ready_told = λ h. absurd (ground arith);
          excused = λ h. inr (rw (k, q.no_peers) refl);
          peers_left = λ h. absurd (ground (arith, h, k));
        })
  resolved-Inv (p ∷ ps) c found q i =
      connect-Inv (record c { state = res_done; peers = p ∷ ps; acts = told res_done ∷ c.acts }) p
        ps (p ∷ ps)
        (record {
          at_p = refl;
          in_order = ap (λ k. k ++ p ∷ ps) q.none_tried;
          none_waits = q.none_waits;
          twice = i.once;
          sound = i.no_fault;
          blameless = λ h. absurd (ground (arith, h, q.no_error));
        })

  task-Inv : (c : Connection) (found : List ℕ) → Inv c found → Inv (run_task connects c) found
  unfolding run_task
  task-Inv c found i = by_tasks c.tasks refl
    where
      by_tasks : (l : List Task) → c.tasks ≡ l → Inv (run_task connects c) found
      by_tasks [] e = rw (e, run_task) i
      by_tasks (connect_next ∷ ts) e =
          let once : waits ts ≡ false = rw e at i.once in
          let (p, rest, q) = i.peers_left (rw e refl) in
          rw (e, run_task)
            (connect-Inv (record c { tasks = ts }) p rest found
              (record {
                at_p = q;
                in_order =
                    let o : attempts c.acts ++ c.peers ≡ found = rw e at i.order in
                    ap (λ l. attempts c.acts ++ l) (sym q) ∙ o;
                none_waits = once;
                twice = waits-none ts once;
                sound = i.no_fault;
                blameless = λ h.
                    elim (i.excused (or-right (is_error c.state) (was_told is_error c.acts) h)) [
                      | inl r ↦ r
                      | inr n ↦
                          absurd (let n' : c.peers ≡ [] = rw e at n in ground (arith, sym q ∙ n'))
                    ];
              }))
      by_tasks (invoke_listener ∷ ts) e =
          rw (e, run_task)
            (listener-Inv (record c { tasks = ts }) found
              (record {
                order = rw e at i.order;
                once = rw e at i.once;
                waiting = rw e at i.waiting;
                no_fault = i.no_fault;
                fresh = i.fresh;
                ready_told = i.ready_told;
                excused = rw e at i.excused;
                peers_left = rw e at i.peers_left;
              }))

  prepare-IsPending :
      (c : Connection) (found : List ℕ)
      → c.state ≡ init
      → Inv c found
      → IsPending (prepare_continue connects c)
  unfolding prepare_continue channel_resolve channel_set_state enter channel_invoke_state_listener
  prepare-IsPending c found e i =
      let (p, a, t) = i.fresh (rw e refl) in
      rw e (record {
        states = inl refl;
        no_peers = p;
        none_tried = a;
        no_error = t;
        none_waits = nothing_waits c found i (ground (arith, e)) (ground (arith, e));
      })

  task-IsPending : (c : Connection) → IsPending c → IsPending (run_task connects c)
  unfolding run_task channel_invoke_state_listener
  task-IsPending c q = by_tasks c.tasks refl
    where
      by_tasks : (l : List Task) → c.tasks ≡ l → IsPending (run_task connects c)
      by_tasks [] e = rw (e, run_task) q
      by_tasks (connect_next ∷ ts) e = absurd (ground (arith, ap waits e, q.none_waits))
      by_tasks (invoke_listener ∷ ts) e =
          rw (e, run_task)
            (listener_pending (record c { tasks = ts })
              (record {
                states = q.states;
                no_peers = q.no_peers;
                none_tried = q.none_tried;
                no_error = q.no_error;
                none_waits = rw e at q.none_waits;
              }))

  -- What holds over a life: the invariant, and that nothing has happened before the resolver answers.
  record Holds (l : Life) : Type 0 where
    inv : Inv l.connection l.found
    pending : l.asked ≡ true → IsPending l.connection

  Step-Holds : (l m : Life) → Step connects is_up l m → Holds l → Holds m
  unfolding set_ready force_close channel_set_state
  Step-Holds l _ (prepare _ e) h = record {
    inv = prepare-Inv l.connection l.found e h.inv;
    pending = λ a. prepare-IsPending l.connection l.found e h.inv;
  }
  Step-Holds l _ (resolved _ ps e) h = record {
    inv = resolved-Inv ps l.connection l.found (h.pending e) h.inv;
    pending = λ a. absurd (ground arith);
  }
  Step-Holds l _ (task _) h = record {
    inv = task-Inv l.connection l.found h.inv;
    pending = λ a. task-IsPending l.connection (h.pending a);
  }
  Step-Holds l _ (connected _ e) h =
      let w = nothing_waits l.connection l.found h.inv (ground (arith, e)) (ground (arith, e)) in
      record {
        inv =
            enter-Inv ready l.connection l.found refl refl (λ k. absurd (ground (arith, k, w)))
              h.inv;
        pending = λ a. absurd (ground (arith, e, (h.pending a).states));
      }
  Step-Holds l _ (fail _ e) h =
      let w = nothing_waits l.connection l.found h.inv (ground (arith, e)) (ground (arith, e)) in
      record {
        inv = handle_error-Inv l.connection l.found h.inv w (ground (arith, e));
        pending = λ a. absurd (ground (arith, e, (h.pending a).states));
      }
  Step-Holds l _ (close _) h = record {
    inv = enter-Inv disconnected l.connection l.found refl refl (λ k. inr refl) h.inv;
    pending = λ a. close_pending l.connection (h.pending a);
  }

  Reach-Holds : (l : Life) → Reach (Step connects is_up) new_channel l → Holds l
  Reach-Holds _ here = record {
    inv = record {
      order = refl;
      once = refl;
      waiting = λ h. absurd (ground arith);
      no_fault = refl;
      fresh = λ h. (refl, refl, refl);
      ready_told = λ h. absurd (ground arith);
      excused = λ h. absurd (ground arith);
      peers_left = λ h. absurd (ground arith);
    };
    pending = λ a. absurd (ground arith);
  }
  Reach-Holds m (next {t} r s) = Step-Holds t m s (Reach-Holds t r)

-- What a life of a channel has come to: the addresses tried are the first of those found, in order,
-- each once; no null pointer was used; and where the listeners were told of an error, the channel
-- had been ready or all addresses were tried.
pub record IsOrderly (l : Life) : Type 0 where
  pub untried : List ℕ
  pub tried_in_order : attempts l.connection.acts ++ untried ≡ l.found
  pub no_fault : faults l.connection.acts ≡ false
  pub error_excused :
      was_told is_error l.connection.acts ≡ true
      → (was_told is_ready l.connection.acts ≡ true) ⊎ (attempts l.connection.acts ≡ l.found)

-- If errors of sockets and timeouts reach a channel only while it connects or is ready, then in
-- whatever order these, the answer of the resolver, the tasks of the main loop and a forced close come
-- (the answer also after the close), it tries the addresses that the resolver found in their order, each
-- at most once, uses no null pointer, and tells of an error only after it was ready or has tried them
-- all.
pub attempts_in_order :
    (connects : ℕ → Bool) (l : Life) → Reach (Step connects is_up) new_channel l → IsOrderly l
attempts_in_order connects l r =
    let i = (Reach-Holds connects l r).inv in
    record {
      untried = to_try l.connection;
      tried_in_order = i.order;
      no_fault = i.no_fault;
      error_excused = λ h.
          elim (i.excused
            (or-right (is_error l.connection.state) (was_told is_error l.connection.acts) h)) [
              | inl q ↦ inl q
              | inr q ↦ inr (
                  sym (append-nil (attempts l.connection.acts))
                  ∙ ap (λ k. attempts l.connection.acts ++ k) (sym q)
                  ∙ i.order)
            ];
    }
