-- ===== src/Provider/Table.antt =====
-- The tables of transactions of src/provider.c. A transaction is known by a number, its branch and the
-- method of its request, as strings; its reference count is left out.
use belle_sip.Prelude.{
  ℕ, Bool, ◌==◌, ◌&&◌, ◌||◌, Option, none, some, List, [], ◌∷◌, length, take, String, same_string,
  if◌then◌else◌,
}
use belle_sip.Text.Noescapes.{codes}
use belle_sip.Lists.Values.{prepend, find_custom, remove}

pub record TransactionEntry : Type 0 where
  pub id : ℕ
  pub branch : String
  pub method : String

pub record Tables : Type 0 where
  pub client_transactions : List TransactionEntry
  pub server_transactions : List TransactionEntry

-- The first Via header of a message, if there is one, by its branch, which may be absent.
abbrev pub Via : Type 0
Via = Option (Option String)

-- What the tables read of a request; `rfc2543_branch` is what compute_rfc2543_branch makes of it.
pub record RequestKey : Type 0 where
  pub via : Via
  pub method : String
  pub rfc2543_branch : String

-- What they read of a response: its Via, and the method of its CSeq header.
pub record ResponseKey : Type 0 where
  pub via : Via
  pub cseq_method : Option String

-- What a search comes to; `fault` is the use of a null pointer.
pub data Search : Type 0 where
  found : Option TransactionEntry → Search
  fault : Search

abbrev pub same_entry : TransactionEntry → TransactionEntry → Bool
same_entry a b = a.id == b.id

unfoldable pub add_client_transaction : TransactionEntry → Tables → Tables
unfolding prepend
add_client_transaction t p = record p { client_transactions = prepend p.client_transactions t }

unfoldable pub add_server_transaction : TransactionEntry → Tables → Tables
unfolding prepend
add_server_transaction t p = record p { server_transactions = prepend p.server_transactions t }

-- A transaction that is not there is only complained of.
unfoldable pub remove_client_transaction : TransactionEntry → Tables → Tables
unfolding remove
remove_client_transaction t p = record p {
  client_transactions = remove same_entry p.client_transactions t;
}

unfoldable pub remove_server_transaction : TransactionEntry → Tables → Tables
unfolding remove
remove_server_transaction t p = record p {
  server_transactions = remove same_entry p.server_transactions t;
}

unfoldable pub client_transaction_match : String → String → TransactionEntry → Bool
client_transaction_match branch method t =
    same_string branch t.branch && same_string method t.method

-- A null branch is compared with the branch of the first transaction.
unfoldable pub find_client : Option String → String → List TransactionEntry → Search
unfolding find_custom client_transaction_match
find_client (some branch) method l = found (find_custom (client_transaction_match branch method) l)
find_client none method [] = found none
find_client none method (t ∷ l) = fault

unfoldable pub find_matching_client_transaction : ResponseKey → Tables → Search
unfolding find_client
find_matching_client_transaction r p = elim r.via [
  | none ↦ found none
  | some branch ↦ elim r.cseq_method [
    | none ↦ found none
    | some method ↦ find_client branch method p.client_transactions
  ]
]

unfoldable pub is_ack_or_cancel : String → Bool
is_ack_or_cancel method = same_string method (codes "ACK") || same_string method (codes "CANCEL")

unfoldable pub transaction_match : String → String → TransactionEntry → Bool
unfolding is_ack_or_cancel
transaction_match branch method t =
    same_string branch t.branch
    && (same_string method t.method
        || (is_ack_or_cancel method && same_string t.method (codes "INVITE")))

-- BELLE_SIP_BRANCH_MAGIC_COOKIE
abbrev pub magic_cookie : String
magic_cookie = codes "z9hG4bK"

-- A branch without the cookie is not used.
unfoldable pub branch_of : RequestKey → String
branch_of r = elim r.via [
  | none ↦ r.rfc2543_branch
  | some via ↦ elim via [
    | none ↦ r.rfc2543_branch
    | some branch ↦
        if same_string (take (length magic_cookie) branch) magic_cookie
        then branch
        else r.rfc2543_branch
  ]
]

unfoldable pub find_matching_transaction :
    List TransactionEntry → RequestKey → Option TransactionEntry
unfolding find_custom transaction_match branch_of
find_matching_transaction l r = find_custom (transaction_match (branch_of r) r.method) l

unfoldable pub find_matching_server_transaction : RequestKey → Tables → Option TransactionEntry
unfolding find_matching_transaction
find_matching_server_transaction r p = find_matching_transaction p.server_transactions r
