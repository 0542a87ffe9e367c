-- ===== src/Dialog/Invariant.antt =====
-- What holds of a dialog between two events.
use belle_sip.Prelude.{◌≡◌, ◌⊎◌, Bool, true, false, Option, none, some, arith}
use belle_sip.Transaction.Base.{State}
use belle_sip.Dialog.Defs.{
  DialogState, null, early, confirmed, terminated, Request, Response, Transaction, Dialog,
}
use belle_sip.Dialog.Update.{
  update, update_null, update_early, update_confirmed, reinvited, note_transaction, establish,
  establish_full, handle_200Ok,
}

abbrev pub is_edge : DialogState → DialogState → Bool
is_edge null early = true
is_edge null confirmed = true
is_edge early confirmed = true
is_edge _ terminated = true
is_edge _ _ = false

establish-keeps :
    (req : Request) (r : Response) (d : Dialog)
    → let e = (establish req r d).0 in
      (e.state ≡ d.state)
      × (e.needs_ack ≡ d.needs_ack)
      × (e.queued ≡ d.queued)
      × (e.is_server ≡ d.is_server)
      × (e.timer_200Ok ≡ d.timer_200Ok)
      × (e.timer_200Ok_end ≡ d.timer_200Ok_end)
      × (e.last_200Ok ≡ d.last_200Ok)
unfolding establish
establish-keeps req r d = ground arith

establish_full-state :
    (req : Request) (r : Response) (d : Dialog)
    → ((establish_full req r d).0.state ≡ d.state) ⊎ ((establish_full req r d).0.state ≡ confirmed)
unfolding establish_full
establish_full-state req r d = ground arith

handle_200Ok-state : (r : Response) (d : Dialog) → (handle_200Ok r d).0.state ≡ d.state
unfolding handle_200Ok
handle_200Ok-state r d = ground arith

abbrev After : DialogState → DialogState → Type 0
After s u = (u ≡ s) ⊎ (u ≡ confirmed) ⊎ (u ≡ terminated)

update_early-After :
    (req : Request) (resp : Option Response) (d : Dialog)
    → After d.state (update_early req resp d).0.state
unfolding update_early
update_early-After req none d = ground arith
update_early-After req (some r) d = ground (arith, establish_full-state req r d)

update_null-After :
    (req : Request) (resp : Option Response) (d : Dialog)
    → After d.state (update_null req resp d).0.state ⊎ ((update_null req resp d).0.state ≡ early)
unfolding update_null
update_null-After req none d = ground (arith, update_early-After req none d)
update_null-After req (some r) d =
    let e = (establish req r d).0 in
    ground (
      arith,
      establish-keeps req r d,
      update_early-After req (some r) d,
      update_early-After req (some r) e,
    )

reinvited-state :
    (as_uas : Bool) (req : Request) (resp : Option Response) (d : Dialog)
    → (reinvited as_uas req resp d).0.state ≡ d.state
unfolding reinvited handle_200Ok
reinvited-state true req resp d = ground arith
reinvited-state false req none d = ground arith
reinvited-state false req (some r) d = ground arith

update_confirmed-state :
    (s : State) (as_uas : Bool) (req : Request) (resp : Option Response) (d : Dialog)
    → ((update_confirmed s as_uas req resp d).0.state ≡ d.state)
      ⊎ ((update_confirmed s as_uas req resp d).0.state ≡ terminated)
unfolding update_confirmed
update_confirmed-state s as_uas req resp d = ground (arith, reinvited-state as_uas req resp d)

note-state :
    (t : Transaction) (as_uas : Bool) (d : Dialog) → (note_transaction t as_uas d).state ≡ d.state
note-state t as_uas d = ground arith

-- An update keeps the state or moves along null, early, confirmed, terminated.
pub update-is_edge :
    (t : Transaction) (as_uas : Bool) (d : Dialog)
    → ((update t as_uas d).0.state ≡ d.state) ⊎ (is_edge d.state (update t as_uas d).0.state ≡ true)
unfolding update
update-is_edge t as_uas d =
    let d1 = note_transaction t as_uas d in
    ground (
      arith,
      note-state t as_uas d,
      update_null-After t.request t.last_response d1,
      update_early-After t.request t.last_response d1,
      update_confirmed-state t.state as_uas t.request t.last_response d1,
    )
