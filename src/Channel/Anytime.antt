-- ===== src/Channel/Anytime.antt =====
-- What holds of a channel in whatever state errors and timeouts reach it, and what a second timeout
-- does to the addresses.
use belle_sip.Prelude.{
  ℕ, ◌≡◌, ◌≢◌, ◌∙◌, refl, sym, ap, inl, inr, Bool, true, false, List, [], ◌∷◌, ◌++◌, Bool-cases,
  arith, Reach, here, next,
}
use mathlib.Core.Path.{subst}
use mathlib.Core.Logic.{∥∥₁_map}
use mathlib.Core.List.{Memᴰ, Subset}
use mathlib.Core.List.Memᴰ
use belle_sip.Channel.Connection.{
  ConnectionState, res_in_progress, res_done, connecting, ready, disconnected, Task, connect_next,
  invoke_listener, Act, told, connect_to, Connection, channel_invoke_state_listener, enter,
  handle_error, channel_set_state, connect, channel_resolve, prepare_continue, channel_res_done,
  run_task, set_ready, notify_timeout, force_close,
}
use belle_sip.Channel.Life.{
  attempts, faults, waits, Life, Step, new_channel, prepare, resolved, task, connected, fail, close,
}
use belle_sip.Channel.Safety.{
  IsFresh, Safe, moved, listener-Safe, listener-IsFresh, enter-Safe, enter-IsFresh,
  handle_error-Safe, handle_error-IsFresh,
}

module _ (connects : ℕ → Bool) where
  connect-Safe :
      (c : Connection) (found : List ℕ)
      → c.peers ≢ []
      → Safe c found
      → Safe (connect connects c) found
  unfolding connect channel_set_state enter channel_invoke_state_listener
  connect-Safe c found n i = by_peers c.peers refl
    where
      by_peers : (l : List ℕ) → c.peers ≡ l → Safe (connect connects c) found
      by_peers [] e = absurd (n e)
      by_peers (p ∷ rest) e =
          let at_p : (q : ℕ) → (q ≡ p) → Memᴰ q found =
            λ q h. i.known q (subst (λ l. Memᴰ q l) (sym e) (Memᴰ.head h)) in
          let c2 = record c {
            state = connecting;
            acts = connect_to p ∷ told connecting ∷ c.acts;
          } in
          let j : Safe c2 found = record {
            sound = i.sound;
            peer = i.peer;
            known = i.known;
            tried = λ q m. elim (Memᴰ.append_cases (attempts c.acts) m) [
              | inl b ↦ i.tried q b
              | inr b ↦ elim (Memᴰ.cases_cons b) [
                | inl h ↦ at_p q h
                | inr h ↦ absurd (Memᴰ.not-nil h)
              ]
            ];
            early = λ h. absurd (ground arith);
          } in
          elim (Bool-cases (connects p)) [
            | inl k ↦ rw (e, k) j
            | inr k ↦ rw (e, k) (handle_error-Safe c2 found j)
          ]

  resolved-Safe :
      (ps : List ℕ) (c : Connection) (found : List ℕ)
      → IsFresh c
      → Safe c found
      → Safe (channel_res_done connects ps c) ps
  unfolding channel_res_done channel_set_state prepare_continue
  resolved-Safe ps c found k i = by_peers ps
    where
      base :
          (qs ps : List ℕ)
          → ((q : ℕ) → Memᴰ q qs → Memᴰ q ps)
          → Safe (record c { state = res_done; peers = qs }) ps
      base qs ps s = record {
        sound = i.sound;
        peer = λ w. absurd (ground (arith, w, k.none_waits));
        known = s;
        tried = λ q m. absurd (Memᴰ.not-nil (subst (λ l. Memᴰ q l) k.none_tried m));
        early = λ e. absurd (ground arith);
      }

      bare : Safe c []
      bare = record {
        sound = i.sound;
        peer = i.peer;
        known = λ q m. subst (λ l. Memᴰ q l) k.no_peers m;
        tried = λ q m. subst (λ l. Memᴰ q l) k.none_tried m;
        early = i.early;
      }

      by_peers : (ps : List ℕ) → Safe (channel_res_done connects ps c) ps
      by_peers [] = handle_error-Safe c [] bare
      by_peers (p ∷ ps) =
          let c1 = record c { state = res_done; peers = p ∷ ps } in
          unfold enter channel_invoke_state_listener in
          connect-Safe (record c1 { acts = told res_done ∷ c.acts }) (p ∷ ps) (λ h. ground arith)
            (moved res_done (told res_done ∷ c.acts) c1 (p ∷ ps) (λ h. ground arith) refl refl
              (base (p ∷ ps) (p ∷ ps) (λ q m. m)))

  task-Safe : (c : Connection) (found : List ℕ) → Safe c found → Safe (run_task connects c) found
  unfolding run_task
  task-Safe c found i = by_tasks c.tasks refl
    where
      rest_of :
          (t : Task) (ts : List Task)
          → c.tasks ≡ t ∷ ts
          → (waits ts ≡ true → waits c.tasks ≡ true)
          → Safe (record c { tasks = ts }) found
      rest_of t ts e w = record {
        sound = i.sound;
        peer = λ h. i.peer (w h);
        known = i.known;
        tried = i.tried;
        early = λ h.
            let k = i.early h in
            record {
              no_peers = k.no_peers;
              none_tried = k.none_tried;
              none_waits = elim (Bool-cases (waits ts)) [
                | inl x ↦ absurd (ground (arith, w x, k.none_waits))
                | inr x ↦ x
              ];
            };
      }

      by_tasks : (l : List Task) → c.tasks ≡ l → Safe (run_task connects c) found
      by_tasks [] e = rw (e, run_task) i
      by_tasks (connect_next ∷ ts) e =
          rw (e, run_task)
            (connect-Safe (record c { tasks = ts }) found (i.peer (ap waits e))
              (rest_of connect_next ts e (λ w. ap waits e)))
      by_tasks (invoke_listener ∷ ts) e =
          rw (e, run_task)
            (listener-Safe (record c { tasks = ts }) found
              (rest_of invoke_listener ts e (λ w. ap waits e ∙ w)))

  task-IsFresh : (c : Connection) → IsFresh c → IsFresh (run_task connects c)
  unfolding run_task
  task-IsFresh c k = by_tasks c.tasks refl
    where
      by_tasks : (l : List Task) → c.tasks ≡ l → IsFresh (run_task connects c)
      by_tasks [] e = rw (e, run_task) k
      by_tasks (connect_next ∷ ts) e = absurd (ground (arith, ap waits e, k.none_waits))
      by_tasks (invoke_listener ∷ ts) e =
          rw (e, run_task)
            (listener-IsFresh (record c { tasks = ts })
              (record {
                no_peers = k.no_peers;
                none_tried = k.none_tried;
                none_waits = rw e at k.none_waits;
              }))

module _ (connects : ℕ → Bool) (fails_in : ConnectionState → Bool) where
  -- Until the resolver answers there are no addresses.
  record SafeLife (l : Life) : Type 0 where
    safe : Safe l.connection l.found
    unanswered : l.asked ≡ true → IsFresh l.connection

  Step-SafeLife : (l m : Life) → Step connects fails_in l m → SafeLife l → SafeLife m
  unfolding prepare_continue channel_resolve channel_set_state set_ready force_close
  Step-SafeLife l _ (prepare _ e) h =
      let c = l.connection in
      let k = enter-IsFresh res_in_progress c (h.safe.early e) in
      let i = enter-Safe res_in_progress c l.found (λ x. ground arith) h.safe in
      rw e (record {
        safe = record {
          sound = i.sound;
          peer = i.peer;
          known = i.known;
          tried = i.tried;
          early = λ x. record {
            no_peers = k.no_peers;
            none_tried = k.none_tried;
            none_waits = k.none_waits;
          };
        };
        unanswered = λ a. record {
          no_peers = k.no_peers;
          none_tried = k.none_tried;
          none_waits = k.none_waits;
        };
      })
  Step-SafeLife l _ (resolved _ ps a) h = record {
    safe = resolved-Safe connects ps l.connection l.found (h.unanswered a) h.safe;
    unanswered = λ x. absurd (ground arith);
  }
  Step-SafeLife l _ (task _) h = record {
    safe = task-Safe connects l.connection l.found h.safe;
    unanswered = λ a. task-IsFresh connects l.connection (h.unanswered a);
  }
  Step-SafeLife l _ (connected _ e) h = record {
    safe = enter-Safe ready l.connection l.found (λ x. ground arith) h.safe;
    unanswered = λ a. enter-IsFresh ready l.connection (h.unanswered a);
  }
  Step-SafeLife l _ (fail _ e) h = record {
    safe = handle_error-Safe l.connection l.found h.safe;
    unanswered = λ a. handle_error-IsFresh l.connection (h.unanswered a);
  }
  Step-SafeLife l _ (close _) h = record {
    safe = enter-Safe disconnected l.connection l.found (λ x. ground arith) h.safe;
    unanswered = λ a. enter-IsFresh disconnected l.connection (h.unanswered a);
  }

  Reach-SafeLife : (l : Life) → Reach (Step connects fails_in) new_channel l → SafeLife l
  Reach-SafeLife _ here = record {
    safe = record {
      sound = refl;
      peer = λ w. absurd (ground arith);
      known = λ q m. m;
      tried = λ q m. m;
      early = λ e. record { no_peers = refl; none_tried = refl; none_waits = refl };
    };
    unanswered = λ a. absurd (ground arith);
  }
  Reach-SafeLife m (next {t} r s) = Step-SafeLife t m s (Reach-SafeLife t r)

-- In whatever states errors of sockets and timeouts reach a channel, over any history it uses no null
-- pointer and tries only addresses that the resolver found.
pub tries_found :
    (connects : ℕ → Bool) (fails_in : ConnectionState → Bool) (l : Life)
    → Reach (Step connects fails_in) new_channel l
    → (faults l.connection.acts ≡ false) × Subset (attempts l.connection.acts) l.found
tries_found connects fails_in l r =
    let i = (Reach-SafeLife connects fails_in l r).safe in (i.sound, λ q m. ∥∥₁_map m (i.tried q))

-- Two timeouts, one after the other, of a connecting channel that has been silent, for which nothing
-- waits, and that has three addresses or more, of which the third takes connections: the second address
-- is skipped, and the third is tried twice.
pub timeouts_skip :
    (connects : ℕ → Bool) (p q r : ℕ) (rest : List ℕ) (acts : List Act)
    → connects r ≡ true
    → let c : Connection = record {
      state = connecting;
      peers = p ∷ q ∷ r ∷ rest;
      tasks = [];
      acts = acts;
    } in
      let d =
        run_task connects (run_task connects (notify_timeout true (notify_timeout true c).0).0) in
      (attempts d.acts ≡ (attempts acts ++ r ∷ []) ++ r ∷ []) × (d.peers ≡ r ∷ rest)
unfolding notify_timeout channel_set_state handle_error enter channel_invoke_state_listener run_task
    connect
timeouts_skip connects p q r rest acts k = rw (k, k) (refl, refl)
