-- ===== src/Provider/Dispatch.antt =====
-- belle_sip_provider_dispatch_request of src/provider.c: a request goes to its server transaction, else
-- its dialog is searched, and an ACK is given to it. What a server transaction then does is modelled with
-- the transactions; the answers are known by their status code.
use belle_sip.Prelude.{
  ℕ, Bool, not, ◌&&◌, Option, none, some, List, [], ◌∷◌, ◌++◌, String, same_string, if◌then◌else◌,
}
use belle_sip.Text.Noescapes.{codes}
use belle_sip.Transaction.Base.{Method}
use belle_sip.Dialog.Defs.{Dialog}
use belle_sip.Dialog.Requests.{is_null, Ids, match_ids, handle_ack, is_authorized_transaction}
use belle_sip.Provider.Table.{
  TransactionEntry, RequestKey, Tables, find_matching_server_transaction,
}

-- An incoming request: its key, its headers that name a dialog, and the number of its CSeq.
pub record Incoming : Type 0 where
  pub key : RequestKey
  pub ids : Ids
  pub cseq : ℕ

-- A dialog among others, or none; `aborted` where two dialogs match, which is fatal, and where a null
-- pointer is compared.
pub data DialogSearch : Type 0 where
  missing aborted : DialogSearch
  hit : List Dialog → Dialog → List Dialog → DialogSearch

abbrev pub behind : Dialog → DialogSearch → DialogSearch
behind d (hit a x b) = hit (d ∷ a) x b
behind d missing = missing
behind d aborted = aborted

-- The loop over the dialogs.
unfoldable pub find_dialogs : (Dialog → Option Bool) → List Dialog → DialogSearch
find_dialogs matches [] = missing
find_dialogs matches (d ∷ l) =
    let rest = find_dialogs matches l in
    if is_null d.state then behind d rest else elim (matches d) [
      | none ↦ aborted
      | some same ↦ if same then elim rest [ missing ↦ hit [] d l | _ ↦ aborted ] else behind d rest
    ]

-- belle_sip_provider_find_dialog_from_message for an incoming request, which holds no dialog itself
unfoldable pub find_dialog_from_message : Ids → List Dialog → DialogSearch
unfolding find_dialogs match_ids
find_dialog_from_message ids l = elim ids.to [
  | none ↦ missing
  | some to_tag ↦ elim to_tag [
    | none ↦ missing
    | some local_tag ↦ elim ids.call_id [
      | none ↦ missing
      | some call_id ↦ elim ids.from [
        | none ↦ missing
        | some from_tag ↦ elim from_tag [
          | none ↦ missing
          | some remote_tag ↦
              find_dialogs (match_ids (some call_id) (some local_tag) (some remote_tag)) l
        ]
      ]
    ]
  ]
]

-- What becomes of a request; the listeners are told it with its dialog, if it has one.
pub data Dispatch : Type 0 where
  to_transaction : TransactionEntry → Dispatch
  absorbed broken_off : Dispatch
  answered : ℕ → Dispatch
  told : Option Dialog → Dispatch

abbrev pub is_ack : String → Bool
is_ack method = same_string method (codes "ACK")

abbrev pub named_method : List (String × Method) → String → Method
named_method [] s = Method.other
named_method ((name, m) ∷ l) s = if same_string s name then m else named_method l s

-- A method by its name.
abbrev pub method_of : String → Method
method_of = named_method (
    (codes "INVITE", Method.invite)
    ∷ (codes "BYE", Method.bye)
    ∷ (codes "CANCEL", Method.cancel)
    ∷ (codes "SUBSCRIBE", Method.subscribe)
    ∷ (codes "NOTIFY", Method.notify)
    ∷ (codes "PRACK", Method.prack)
    ∷ (codes "UPDATE", Method.update)
    ∷ [])

-- Behind the search for a dialog; `always` is unconditional_answer_enabled.
abbrev pub tell : Bool → Incoming → Option Dialog → Dispatch
tell always r d = if always && not (is_ack r.key.method) then answered 480 else told d

unfoldable pub dispatch_request : Bool → Incoming → Tables → List Dialog → List Dialog × Dispatch
unfolding find_matching_server_transaction find_dialog_from_message handle_ack
    is_authorized_transaction
dispatch_request always r p ds = elim (find_matching_server_transaction r.key p) [
  | some t ↦ (ds, to_transaction t)
  | none ↦ elim (find_dialog_from_message r.ids ds) [
    | missing ↦ (ds, tell always r none)
    | aborted ↦ (ds, broken_off)
    | hit a d b ↦
        if is_ack r.key.method
        then (let k = handle_ack r.cseq d in
            if k.1 then (a ++ k.0 ∷ b, tell always r (some k.0)) else (ds, absorbed))
        else if is_authorized_transaction (method_of r.key.method) d
        then (ds, tell always r (some d))
        else (ds, answered 491)
  ]
]
