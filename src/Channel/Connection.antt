-- ===== src/Channel/Connection.antt =====
-- How a channel of src/channel.c gets to its peer: its states, the addresses that it tries, and what its
-- listeners are told. What the resolver and the sockets give are arguments; the listeners do nothing to
-- the channel. What belle_sip_main_loop_do_later was given waits in `tasks`.
use belle_sip.Prelude.{ℕ, Bool, true, false, List, [], ◌∷◌, ◌++◌, if◌then◌else◌}

-- belle_sip_channel_state_t
pub data ConnectionState : Type 0 where
  init res_in_progress res_done connecting retry ready error disconnected : ConnectionState

-- channel_connect_next and channel_invoke_state_listener_defered
pub data Task : Type 0 where
  connect_next invoke_listener : Task

-- What the channel does to its surroundings; `fault` is the use of a null pointer.
pub data Act : Type 0 where
  told : ConnectionState → Act
  connect_to : ℕ → Act
  resolve closed fault : Act

-- `peers` are the address in current_peer and those that follow it, none for a null pointer; the newest
-- act comes first.
pub record Connection : Type 0 where
  pub state : ConnectionState
  pub peers : List ℕ
  pub tasks : List Task
  pub acts : List Act

abbrev pub act : Act → Connection → Connection
act a c = record c { acts = a ∷ c.acts }

abbrev pub later : Task → Connection → Connection
later t c = record c { tasks = c.tasks ++ t ∷ [] }

abbrev pub is_ready : ConnectionState → Bool
is_ready ready = true
is_ready _ = false

abbrev pub is_dead : ConnectionState → Bool
is_dead error = true
is_dead disconnected = true
is_dead _ = false

unfoldable pub channel_invoke_state_listener : Connection → Connection
channel_invoke_state_listener c = act (told c.state) (if is_dead c.state then act closed c else c)

-- A state other than ERROR.
unfoldable pub enter : ConnectionState → Connection → Connection
unfolding channel_invoke_state_listener
enter s c = channel_invoke_state_listener (record c { state = s })

unfoldable pub give_up : Connection → Connection
give_up c = later invoke_listener (record c { state = error })

unfoldable pub handle_error : Connection → Connection
unfolding enter give_up
handle_error c = if is_ready c.state then give_up c else elim c.peers [
  | p ∷ q ∷ rest ↦ later connect_next (act closed (enter retry (record c { peers = q ∷ rest })))
  | _ ↦ give_up c
]

unfoldable pub channel_set_state : ConnectionState → Connection → Connection
unfolding handle_error enter
channel_set_state error c = handle_error c
channel_set_state s c = enter s c

-- `connects` is what the connect function of the transport gives for an address: if there is no error
-- yet.
unfoldable pub connect : (ℕ → Bool) → Connection → Connection
unfolding channel_set_state
connect connects c =
    let c1 = channel_set_state connecting c in
    elim c1.peers [
      | [] ↦ act fault c1
      | p ∷ rest ↦
          let c2 = act (connect_to p) c1 in if connects p then c2 else channel_set_state error c2
    ]

unfoldable pub channel_resolve : Connection → Connection
unfolding channel_set_state
channel_resolve c = act resolve (channel_set_state res_in_progress c)

-- In READY the queue is processed, which is no matter of the connection.
unfoldable pub prepare_continue : (ℕ → Bool) → Connection → Connection
unfolding channel_resolve connect
prepare_continue connects c = elim c.state [
  | init ↦ channel_resolve c
  | res_done ↦ connect connects c
  | _ ↦ c
]

-- The addresses that the resolver has found.
unfoldable pub channel_res_done : (ℕ → Bool) → List ℕ → Connection → Connection
unfolding channel_set_state prepare_continue
channel_res_done connects [] c = channel_set_state error c
channel_res_done connects (p ∷ ps) c =
    prepare_continue connects (channel_set_state res_done (record c { peers = p ∷ ps }))

-- The main loop runs the first task.
unfoldable pub run_task : (ℕ → Bool) → Connection → Connection
unfolding connect channel_invoke_state_listener
run_task connects c = elim c.tasks [
  | [] ↦ c
  | connect_next ∷ ts ↦ connect connects (record c { tasks = ts })
  | invoke_listener ∷ ts ↦ channel_invoke_state_listener (record c { tasks = ts })
]

-- The first part of belle_sip_channel_set_ready.
unfoldable pub set_ready : Connection → Connection
unfolding channel_set_state
set_ready c = channel_set_state ready c

-- The answer says if the channel has been silent for 60 seconds.
unfoldable pub notify_timeout : Bool → Connection → Connection × Bool
unfolding channel_set_state
notify_timeout silent c = if silent then (channel_set_state error c, true) else (c, false)

unfoldable pub force_close : Connection → Connection
unfolding channel_set_state
force_close c = channel_set_state disconnected c
