-- ===== src/Provider/Acks.antt =====
-- An ACK that src/provider.c gives to a dialog.
use belle_sip.Prelude.{
  ℕ, Bool, true, false, ◌≡◌, ◌∙◌, refl, ap, ◌&&◌, ◌==◌, Option, none, some, List, [], ◌∷◌, ◌++◌,
  if◌then◌else◌, arith,
}
use belle_sip.Text.Noescapes.{codes}
use belle_sip.Dialog.Defs.{Dialog, stop_200Ok_retrans, process_queue}
use belle_sip.Dialog.Requests.{is_null, match_ids, handle_ack}
use belle_sip.Provider.Table.{RequestKey, Tables, find_matching_server_transaction}
use belle_sip.Provider.Dispatch.{
  Incoming, missing, hit, find_dialogs, find_dialog_from_message, Dispatch, absorbed, told,
  dispatch_request,
}

-- An ACK with both tags and a call id.
abbrev pub ack_of : RequestKey → ℕ → ℕ → ℕ → ℕ → Incoming
ack_of key call_id from_tag to_tag cseq = record {
  key = record key { method = codes "ACK" };
  ids = record { call_id = some call_id; from = some (some from_tag); to = some (some to_tag) };
  cseq = cseq;
}

module _ (matches : Dialog → Option Bool) where
  -- Dialogs that have begun and do not match.
  abbrev pub AllMiss : List Dialog → Type 0
  AllMiss [] = Unit
  AllMiss (d ∷ l) = (is_null d.state ≡ false) × (matches d ≡ some false) × AllMiss l

  find_missing : (l : List Dialog) → AllMiss l → find_dialogs matches l ≡ missing
  unfolding find_dialogs
  find_missing [] m = refl
  find_missing (d ∷ l) (n, m, o) = rw (n, m, find_missing l o, find_dialogs) refl

  find_hit :
      (a b : List Dialog) (d : Dialog)
      → AllMiss a
      → AllMiss b
      → is_null d.state ≡ false
      → matches d ≡ some true
      → find_dialogs matches (a ++ d ∷ b) ≡ hit a d b
  unfolding find_dialogs
  find_hit [] b d m o n h = rw (n, h, find_missing b o, find_dialogs) refl
  find_hit (x ∷ a) b d (k, m, ms) o n h = rw (k, m, find_hit a b d ms o n h, find_dialogs) refl

-- What dispatch_request does with an ACK for a dialog, by what the dialog says of it.
abbrev give_ack : List Dialog → List Dialog → List Dialog → Dialog × Bool → List Dialog × Dispatch
give_ack ds a b k = if k.1 then (a ++ k.0 ∷ b, told (some k.0)) else (ds, absorbed)

and_false : (t : Bool) → (t && false) ≡ false
and_false true = refl
and_false false = refl

dispatch_ack :
    (always : Bool) (key : RequestKey) (c f t n : ℕ) (p : Tables) (ds a b : List Dialog)
    (d : Dialog)
    → find_matching_server_transaction (record key { method = codes "ACK" }) p ≡ none
    → find_dialogs (match_ids (some c) (some t) (some f)) ds ≡ hit a d b
    → dispatch_request always (ack_of key c f t n) p ds ≡ give_ack ds a b (handle_ack n d)
unfolding dispatch_request find_dialog_from_message
dispatch_ack always key c f t n p ds a b d e h = rw (e, h, and_false always, dispatch_request) refl

-- A dialog that has got its ACK.
abbrev pub acked : Dialog → Dialog
acked d = process_queue (stop_200Ok_retrans (record d { needs_ack = false }))

handle_ack_first :
    (n : ℕ) (d : Dialog) → d.needs_ack ≡ true → n ≡ d.remote_cseq → handle_ack n d ≡ (acked d, true)
unfolding handle_ack
handle_ack_first n d w e =
    let same : (n == d.remote_cseq) ≡ true = ground (arith, e) in rw (w, same, handle_ack) refl

handle_ack_again : (n : ℕ) (d : Dialog) → handle_ack n (acked d) ≡ (acked d, false)
unfolding handle_ack stop_200Ok_retrans process_queue
handle_ack_again n d = refl

-- Where no server transaction matches an ACK, and of the dialogs, none of which is in the null state,
-- exactly one matches it, waits for an ACK and has the number of its CSeq, the listeners are told the
-- ACK with this dialog, which waits no more; and when the same ACK comes again it is absorbed and no
-- dialog is changed.
pub ack_once :
    (always : Bool) (key : RequestKey) (c f t n : ℕ) (p : Tables) (a b : List Dialog) (d : Dialog)
    → find_matching_server_transaction (record key { method = codes "ACK" }) p ≡ none
    → AllMiss (match_ids (some c) (some t) (some f)) a
    → AllMiss (match_ids (some c) (some t) (some f)) b
    → is_null d.state ≡ false
    → match_ids (some c) (some t) (some f) d ≡ some true
    → d.needs_ack ≡ true
    → n ≡ d.remote_cseq
    → let r = ack_of key c f t n in
      let after = a ++ acked d ∷ b in
      (dispatch_request always r p (a ++ d ∷ b) ≡ (after, told (some (acked d))))
      × (dispatch_request always r p after ≡ (after, absorbed))
      × ((acked d).needs_ack ≡ false)
unfolding match_ids stop_200Ok_retrans process_queue
ack_once always key c f t n p a b d e ma mb s m w q =
    let matches = match_ids (some c) (some t) (some f) in
    let after = a ++ acked d ∷ b in
    (
      dispatch_ack always key c f t n p (a ++ d ∷ b) a b d e (find_hit matches a b d ma mb s m)
          ∙ ap (give_ack (a ++ d ∷ b) a b) (handle_ack_first n d w q),
      dispatch_ack always key c f t n p after a b (acked d) e
            (find_hit matches a b (acked d) ma mb s m)
          ∙ ap (give_ack after a b) (handle_ack_again n d),
      refl,
    )
