-- ===== src/Tests/Provider.antt =====
-- An INVITE and its CANCEL among other transactions.
use belle_sip.Prelude.{◌≡◌, refl, true, false, none, some, List, [], ◌∷◌, ◌++◌, String}
use belle_sip.Text.Noescapes.{codes}
use belle_sip.Provider.Table.{
  Tables, find_matching_server_transaction, TransactionEntry, RequestKey, found, fault, branch_of,
  find_matching_transaction, find_matching_client_transaction,
}
use belle_sip.Provider.Routing.{
  entry, request, invite_method, ack_method, cancel_method, bye_method, cancel_routing,
}
use belle_sip.Dialog.Defs.{Dialog}
use belle_sip.Dialog.Requests.{match_ids}
use belle_sip.Tests.Dialog.{waiting}
use belle_sip.Provider.Dispatch.{dispatch_request, absorbed, told}
use belle_sip.Provider.Acks.{ack_of, acked, ack_once}
use belle_sip.Provider.Responses.{response, two_tables, response_routing}

abbrev branch : String
branch = codes "z9hG4bKa"

abbrev unrelated : List TransactionEntry
unrelated = entry 7 (codes "z9hG4bKb") (codes "INVITE") ∷ []

abbrev keyed : RequestKey
keyed = record { via = some (some branch); method = codes "OPTIONS"; rfc2543_branch = codes "x" }

cancel_routing_example :
    let invited = unrelated ++ entry 1 branch invite_method ∷ [] in
    let cancelled = unrelated ++ entry 2 branch cancel_method ∷ invited in
    (find_matching_transaction cancelled (request cancel_method keyed)
      ≡ some (entry 2 branch cancel_method))
    × (find_matching_transaction cancelled (request ack_method keyed)
        ≡ some (entry 1 branch invite_method))
    × (find_matching_transaction cancelled (request invite_method keyed)
        ≡ some (entry 1 branch invite_method))
    × (find_matching_transaction cancelled (request bye_method keyed) ≡ none)
    × (find_matching_transaction invited (request cancel_method keyed)
        ≡ some (entry 1 branch invite_method))
unfolding branch_of
cancel_routing_example =
    cancel_routing branch 2 1 unrelated unrelated [] keyed refl (refl, tt) (refl, tt) tt

response_routing_example :
    let tables =
      two_tables
        (unrelated ++ entry 2 branch cancel_method ∷ ([] ++ entry 1 branch invite_method ∷ []))
        [] in
    (find_matching_client_transaction (response (some branch) cancel_method) tables
      ≡ found (some (entry 2 branch cancel_method)))
    × (find_matching_client_transaction (response (some branch) invite_method) tables
        ≡ found (some (entry 1 branch invite_method)))
    × (find_matching_client_transaction (response (some branch) bye_method) tables ≡ found none)
    × (find_matching_client_transaction (response none invite_method) tables ≡ fault)
response_routing_example = response_routing branch 2 1 unrelated [] [] [] (refl, tt) tt tt

abbrev wants_ack : Dialog
wants_ack = record waiting { call_id = some 5; local_tag = some 22; remote_tag = some 11 }

abbrev other_call : Dialog
other_call = record wants_ack { call_id = some 6 }

abbrev both_tables : Tables
both_tables = two_tables [] unrelated

ack_once_example :
    let r = ack_of keyed 5 11 22 20 in
    let after = (other_call ∷ []) ++ acked wants_ack ∷ (other_call ∷ []) in
    (dispatch_request true r both_tables ((other_call ∷ []) ++ wants_ack ∷ (other_call ∷ []))
      ≡ (after, told (some (acked wants_ack))))
    × (dispatch_request true r both_tables after ≡ (after, absorbed))
    × ((acked wants_ack).needs_ack ≡ false)
unfolding find_matching_server_transaction match_ids
ack_once_example =
    ack_once true keyed 5 11 22 20 both_tables (other_call ∷ []) (other_call ∷ []) wants_ack refl
      (refl, refl, tt) (refl, refl, tt) refl refl refl refl
