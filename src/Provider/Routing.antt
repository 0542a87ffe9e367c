-- ===== src/Provider/Routing.antt =====
-- Which transaction a message finds in the tables of src/provider.c.
use belle_sip.Prelude.{
  ℕ, true, false, ◌≡◌, ◌∙◌, refl, ap, ◌&&◌, ◌||◌, none, some, List, [], ◌∷◌, ◌++◌, String,
  same_string, same_string_refl,
}
use belle_sip.Text.Noescapes.{codes}
use belle_sip.Lists.Values.{find_custom}
use belle_sip.Provider.Table.{
  TransactionEntry, RequestKey, is_ack_or_cancel, transaction_match, branch_of,
  find_matching_transaction,
}

-- Transactions of other branches.
abbrev pub AllOther : String → List TransactionEntry → Type 0
AllOther b [] = Unit
AllOther b (t ∷ l) = (same_string b t.branch ≡ false) × AllOther b l

find_skip :
    (b m : String) (l r : List TransactionEntry)
    → AllOther b l
    → find_custom (transaction_match b m) (l ++ r) ≡ find_custom (transaction_match b m) r
unfolding find_custom transaction_match
find_skip b m [] r o = refl
find_skip b m (t ∷ l) r (h, o) = rw h (find_skip b m l r o)

find_here :
    (b m : String) (t : TransactionEntry) (r : List TransactionEntry)
    → transaction_match b m t ≡ true
    → find_custom (transaction_match b m) (t ∷ r) ≡ some t
unfolding find_custom
find_here b m t r h = rw h refl

find_past :
    (b m : String) (t : TransactionEntry) (r : List TransactionEntry)
    → transaction_match b m t ≡ false
    → find_custom (transaction_match b m) (t ∷ r) ≡ find_custom (transaction_match b m) r
unfolding find_custom
find_past b m t r h = rw h refl

abbrev pub entry : ℕ → String → String → TransactionEntry
entry i b m = record { id = i; branch = b; method = m }

abbrev pub request : String → RequestKey → RequestKey
request m r = record r { method = m }

abbrev pub invite_method : String
invite_method = codes "INVITE"

abbrev pub ack_method : String
ack_method = codes "ACK"

abbrev pub cancel_method : String
cancel_method = codes "CANCEL"

abbrev pub bye_method : String
bye_method = codes "BYE"

match_entry :
    (b m n : String) (i : ℕ)
    → transaction_match b m (entry i b n)
      ≡ (same_string m n || (is_ack_or_cancel m && same_string n invite_method))
unfolding transaction_match
match_entry b m n i = rw (same_string_refl b) refl

find_none :
    (b m : String) (l : List TransactionEntry)
    → AllOther b l
    → find_custom (transaction_match b m) l ≡ none
unfolding find_custom transaction_match
find_none b m [] o = refl
find_none b m (t ∷ l) (h, o) = rw h (find_none b m l o)

by_branch :
    (m : String) (l : List TransactionEntry) (r : RequestKey) (b : String)
    → branch_of r ≡ b
    → find_matching_transaction l (request m r) ≡ find_custom (transaction_match b m) l
unfolding find_matching_transaction branch_of
by_branch m l r b e = ap (λ x. find_custom (transaction_match x m) l) e

-- A request that does not match a CANCEL goes on to the INVITE.
past_both :
    (b : String) (c i : ℕ) (m : String) (newer between older : List TransactionEntry)
    → AllOther b newer
    → AllOther b between
    → (same_string m cancel_method
        || (is_ack_or_cancel m && same_string cancel_method invite_method))
      ≡ false
    → find_custom
        (transaction_match b m)
        (newer ++ entry c b cancel_method ∷ (between ++ entry i b invite_method ∷ older))
      ≡ find_custom (transaction_match b m) (entry i b invite_method ∷ older)
past_both b c i m newer between older o1 o2 h =
    find_skip b m newer (entry c b cancel_method ∷ (between ++ entry i b invite_method ∷ older)) o1
    ∙ find_past b m (entry c b cancel_method) (between ++ entry i b invite_method ∷ older)
        (match_entry b m cancel_method c ∙ h)
    ∙ find_skip b m between (entry i b invite_method ∷ older) o2

-- Where the server transactions of an INVITE and of its CANCEL, which is newer, are among others of
-- other branches, a CANCEL of their branch finds that of the CANCEL, an INVITE and an ACK find that of
-- the INVITE, and a BYE finds none; and before the CANCEL has a transaction it finds that of the
-- INVITE.
pub cancel_routing :
    (b : String) (c i : ℕ) (newer between older : List TransactionEntry) (r : RequestKey)
    → branch_of r ≡ b
    → AllOther b newer
    → AllOther b between
    → AllOther b older
    → let invited = between ++ entry i b invite_method ∷ older in
      let cancelled = newer ++ entry c b cancel_method ∷ invited in
      (find_matching_transaction cancelled (request cancel_method r)
        ≡ some (entry c b cancel_method))
      × (find_matching_transaction cancelled (request ack_method r)
          ≡ some (entry i b invite_method))
      × (find_matching_transaction cancelled (request invite_method r)
          ≡ some (entry i b invite_method))
      × (find_matching_transaction cancelled (request bye_method r) ≡ none)
      × (find_matching_transaction invited (request cancel_method r)
          ≡ some (entry i b invite_method))
unfolding find_matching_transaction branch_of is_ack_or_cancel
cancel_routing b c i newer between older r e o1 o2 o3 =
    let invite = entry i b invite_method in
    let cancel = entry c b cancel_method in
    let invited = between ++ invite ∷ older in
    let cancelled = newer ++ cancel ∷ invited in
    let at_cancel =
      by_branch cancel_method cancelled r b e
      ∙ find_skip b cancel_method newer (cancel ∷ invited) o1 in
    (
      at_cancel
          ∙ find_here b cancel_method cancel invited (match_entry b cancel_method cancel_method c),
      by_branch ack_method cancelled r b e
          ∙ past_both b c i ack_method newer between older o1 o2 refl
          ∙ find_here b ack_method invite older (match_entry b ack_method invite_method i),
      by_branch invite_method cancelled r b e
          ∙ past_both b c i invite_method newer between older o1 o2 refl
          ∙ find_here b invite_method invite older (match_entry b invite_method invite_method i),
      by_branch bye_method cancelled r b e
          ∙ past_both b c i bye_method newer between older o1 o2 refl
          ∙ find_past b bye_method invite older (match_entry b bye_method invite_method i)
          ∙ find_none b bye_method older o3,
      by_branch cancel_method invited r b e
          ∙ find_skip b cancel_method between (invite ∷ older) o2
          ∙ find_here b cancel_method invite older (match_entry b cancel_method invite_method i),
    )
