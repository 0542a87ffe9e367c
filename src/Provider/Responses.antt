-- ===== src/Provider/Responses.antt =====
-- Which client transaction a response finds in the tables of src/provider.c.
use belle_sip.Prelude.{
  ℕ, false, ◌≡◌, ◌∙◌, refl, ap, Option, none, some, List, [], ◌∷◌, ◌++◌, String, same_string,
  same_string_refl,
}
use belle_sip.Lists.Values.{find_custom}
use belle_sip.Provider.Table.{
  TransactionEntry, Tables, ResponseKey, found, fault, client_transaction_match, find_client,
  find_matching_client_transaction,
}
use belle_sip.Provider.Routing.{AllOther, entry, invite_method, cancel_method, bye_method}

client_skip :
    (b m : String) (l r : List TransactionEntry)
    → AllOther b l
    → find_custom (client_transaction_match b m) (l ++ r)
      ≡ find_custom (client_transaction_match b m) r
unfolding find_custom client_transaction_match
client_skip b m [] r o = refl
client_skip b m (t ∷ l) r (h, o) = rw h (client_skip b m l r o)

client_none :
    (b m : String) (l : List TransactionEntry)
    → AllOther b l
    → find_custom (client_transaction_match b m) l ≡ none
unfolding find_custom client_transaction_match
client_none b m [] o = refl
client_none b m (t ∷ l) (h, o) = rw h (client_none b m l o)

client_here :
    (b m : String) (i : ℕ) (r : List TransactionEntry)
    → find_custom (client_transaction_match b m) (entry i b m ∷ r) ≡ some (entry i b m)
unfolding find_custom client_transaction_match
client_here b m i r = rw (same_string_refl b, same_string_refl m) refl

client_past :
    (b m n : String) (i : ℕ) (r : List TransactionEntry)
    → same_string m n ≡ false
    → find_custom (client_transaction_match b m) (entry i b n ∷ r)
      ≡ find_custom (client_transaction_match b m) r
unfolding find_custom client_transaction_match
client_past b m n i r h = rw (same_string_refl b, h) refl

no_branch :
    (m : String) (l r : List TransactionEntry) (t : TransactionEntry)
    → find_client none m (l ++ t ∷ r) ≡ fault
unfolding find_client
no_branch m [] r t = refl
no_branch m (x ∷ l) r t = refl

abbrev pub response : Option String → String → ResponseKey
response b m = record { via = some b; cseq_method = some m }

abbrev pub two_tables : List TransactionEntry → List TransactionEntry → Tables
two_tables c s = record { client_transactions = c; server_transactions = s }

-- Where the client transactions of an INVITE and of its CANCEL, which is newer, are among others of
-- other branches, a response with their branch and the method CANCEL in its CSeq finds that of the
-- CANCEL, one with INVITE that of the INVITE, and one with BYE none; a response whose Via has no branch
-- makes the search use a null pointer.
pub response_routing :
    (b : String) (c i : ℕ) (newer between older servers : List TransactionEntry)
    → AllOther b newer
    → AllOther b between
    → AllOther b older
    → let tables =
        two_tables
          (newer ++ entry c b cancel_method ∷ (between ++ entry i b invite_method ∷ older))
          servers in
      (find_matching_client_transaction (response (some b) cancel_method) tables
        ≡ found (some (entry c b cancel_method)))
      × (find_matching_client_transaction (response (some b) invite_method) tables
          ≡ found (some (entry i b invite_method)))
      × (find_matching_client_transaction (response (some b) bye_method) tables ≡ found none)
      × (find_matching_client_transaction (response none invite_method) tables ≡ fault)
unfolding find_matching_client_transaction find_client
response_routing b c i newer between older servers o1 o2 o3 =
    let invite = entry i b invite_method in
    let cancel = entry c b cancel_method in
    let rest = between ++ invite ∷ older in
    (
      ap found (
          client_skip b cancel_method newer (cancel ∷ rest) o1
          ∙ client_here b cancel_method c rest),
      ap found (
          client_skip b invite_method newer (cancel ∷ rest) o1
          ∙ client_past b invite_method cancel_method c rest refl
          ∙ client_skip b invite_method between (invite ∷ older) o2
          ∙ client_here b invite_method i older),
      ap found (
          client_skip b bye_method newer (cancel ∷ rest) o1
          ∙ client_past b bye_method cancel_method c rest refl
          ∙ client_skip b bye_method between (invite ∷ older) o2
          ∙ client_past b bye_method invite_method i older refl
          ∙ client_none b bye_method older o3),
      no_branch invite_method newer rest cancel,
    )
