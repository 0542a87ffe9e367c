-- ===== src/Dialog/Peers.antt =====
-- The two ends of a call.
use mathlib.Core.List.{reverse}
use belle_sip.Prelude.{ℕ, ◌≡◌, ◌≤◌, ◌<◌, Bool, true, false, none, some, List, arith}
use belle_sip.Transaction.Base.{State, Method, invite, TimerConfig, state_is_transient}
use belle_sip.Dialog.Defs.{confirmed, null, request_pending, Request, Response, Dialog}
use belle_sip.Dialog.Update.{
  update, update_null, update_early, establish, establish_full, new, caller, callee,
}
use belle_sip.Dialog.Requests.{create_request, crashed, match, match_ids, Ids}

-- An INVITE and a 2xx response to it that carry all the headers of a dialog.
pub record IsCall (req : Request) (r : Response) (f g id n a b : ℕ) (tls : Bool) : Type 0 where
  pub inviting : req.method ≡ invite
  pub from_tag : req.from ≡ some (some f)
  pub to_tag : r.to ≡ some (some g)
  pub call : req.call_id ≡ some id
  pub sequence : req.cseq ≡ some n
  pub via : req.via ≡ some tls
  pub request_contact : req.contact ≡ some a
  pub response_contact : r.contact ≡ some b
  pub accepting : (200 ≤ r.code) × (r.code < 300)

record IsEnd (d : Dialog) (here there id contact : ℕ) (path : List ℕ) : Type 0 where
  settled : d.state ≡ confirmed
  call : d.call_id ≡ some id
  local_tag : d.local_tag ≡ some here
  remote_tag : d.remote_tag ≡ some there
  target : d.remote_target ≡ some contact
  routes : d.route_set ≡ path
  unacked : d.needs_ack ≡ true

caller-IsEnd :
    (config : TimerConfig) (s : State) (req : Request) (r : Response) (f g id n a b : ℕ)
    (tls : Bool) (d : Dialog)
    → IsCall req r f g id n a b tls
    → new config (caller s req r) ≡ some d
    → let u = (update (caller s req r) false d).0 in
      IsEnd u f g id b (reverse r.record_routes) × (u.local_cseq ≡ n)
unfolding new update update_null update_early establish establish_full
caller-IsEnd config s req r f g id n a b tls d c e = ground arith

callee-IsEnd :
    (config : TimerConfig) (s : State) (req : Request) (r : Response) (f g id n a b : ℕ)
    (tls : Bool) (d : Dialog)
    → IsCall req r f g id n a b tls
    → new config (callee s req none) ≡ some d
    → let u = (update (callee s req (some r)) true d).0 in
      IsEnd u g f id a req.record_routes × (u.remote_cseq ≡ n)
unfolding new update update_null update_early establish establish_full
callee-IsEnd config s req r f g id n a b tls d c e = ground arith

-- Both ends of a call that carries all headers are confirmed by the 2xx response, with the same
-- call id, the same sequence number of the INVITE and each other's tags and contacts; the route
-- sets are the Record-Route headers, reversed at the caller; and both wait for the ACK.
pub peers_agree :
    (config : TimerConfig) (s z : State) (req : Request) (r : Response) (f g id n a b : ℕ)
    (tls : Bool) (d e : Dialog)
    → IsCall req r f g id n a b tls
    → new config (caller s req r) ≡ some d
    → new config (callee z req none) ≡ some e
    → let u = (update (caller s req r) false d).0 in
      let v = (update (callee z req (some r)) true e).0 in
      (u.state ≡ confirmed)
      × (v.state ≡ confirmed)
      × (u.call_id ≡ v.call_id)
      × (u.local_tag ≡ v.remote_tag)
      × (u.remote_tag ≡ v.local_tag)
      × (u.local_cseq ≡ v.remote_cseq)
      × (u.remote_target ≡ r.contact)
      × (v.remote_target ≡ req.contact)
      × (u.route_set ≡ reverse r.record_routes)
      × (v.route_set ≡ req.record_routes)
      × (u.needs_ack ≡ true)
      × (v.needs_ack ≡ true)
peers_agree config s z req r f g id n a b tls d e c p q =
    let (x, m) = caller-IsEnd config s req r f g id n a b tls d c p in
    let (y, k) = callee-IsEnd config z req r f g id n a b tls e c q in
    (
      x.settled,
      y.settled,
      ground arith,
      ground arith,
      ground arith,
      ground arith,
      ground (arith, c.response_contact),
      ground arith,
      x.routes,
      y.routes,
      x.unacked,
      y.unacked,
    )

abbrev pub ids : ℕ → ℕ → ℕ → Ids
ids id from to = record { call_id = some id; from = some (some from); to = some (some to) }

-- A later request of either end belongs to the dialog of the other.
pub peers_match :
    (config : TimerConfig) (s z : State) (req : Request) (r : Response) (f g id n a b : ℕ)
    (tls : Bool) (d e : Dialog)
    → IsCall req r f g id n a b tls
    → new config (caller s req r) ≡ some d
    → new config (callee z req none) ≡ some e
    → (match (ids id f g) true (update (callee z req (some r)) true e).0 ≡ some true)
      × (match (ids id g f) true (update (caller s req r) false d).0 ≡ some true)
unfolding match match_ids
peers_match config s z req r f g id n a b tls d e c p q =
    let x = (caller-IsEnd config s req r f g id n a b tls d c p).0 in
    let y = (callee-IsEnd config z req r f g id n a b tls e c q).0 in ground arith

-- No request can be made without a remote target.
no_target-create_request :
    (m : Method) (v : Dialog)
    → v.state ≡ confirmed
    → v.remote_target ≡ none
    → request_pending v ≡ false
    → (create_request m v).1 ≡ crashed
unfolding create_request
no_target-create_request m v e t p = ground arith

-- The callee's dialog of a request whose transaction is over and that has no Contact header.
lost_target :
    (s : State) (req : Request) (r : Response) (id : ℕ) (n : ℕ) (d : Dialog)
    → d.state ≡ null
    → d.is_server ≡ true
    → d.remote_target ≡ none
    → req.method ≡ Method.subscribe
    → req.call_id ≡ some id
    → req.cseq ≡ some n
    → req.contact ≡ none
    → (200 ≤ r.code) × (r.code < 300)
    → state_is_transient s ≡ false
    → let v = (update (callee s req (some r)) true d).0 in
      (v.state ≡ confirmed) × (v.remote_target ≡ none) × (request_pending v ≡ false)
unfolding update update_null update_early establish establish_full request_pending
lost_target s req r id n d a b c i j k l q o = ground arith

new-callee_null :
    (config : TimerConfig) (s : State) (req : Request) (d : Dialog)
    → new config (callee s req none) ≡ some d
    → (d.state ≡ null) × (d.is_server ≡ true) × (d.remote_target ≡ none)
unfolding new
new-callee_null config s req d h = ground arith

-- A SUBSCRIBE without a Contact header, which the check of its mandatory headers lets through,
-- answered by a 2xx response: the failure to establish the dialog is not looked at, the dialog is
-- confirmed without a remote target, and to make any request in it, when the transaction is over, uses
-- a null pointer.
pub missing_contact :
    (config : TimerConfig) (s : State) (req : Request) (r : Response) (id n : ℕ) (e : Dialog)
    (m : Method)
    → req.method ≡ Method.subscribe
    → req.call_id ≡ some id
    → req.cseq ≡ some n
    → req.contact ≡ none
    → (200 ≤ r.code) × (r.code < 300)
    → new config (callee s req none) ≡ some e
    → state_is_transient s ≡ false
    → let v = (update (callee s req (some r)) true e).0 in
      (v.state ≡ confirmed) × (v.remote_target ≡ none) × ((create_request m v).1 ≡ crashed)
missing_contact config s req r id n e m i j k l q w o =
    let (a, b, c) = new-callee_null config s req e w in
    let (x, y, z) = lost_target s req r id n e a b c i j k l q o in
    (x, y, no_target-create_request m (update (callee s req (some r)) true e).0 x y z)
