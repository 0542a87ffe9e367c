-- ===== src/Dialog/Queue.antt =====
-- The queue of client transactions that wait for a dialog to be idle.
use mathlib.Core.List.{append_assoc, append-nil}
use belle_sip.Prelude.{ℕ, ◌≡◌, ◌∙◌, refl, sym, ap, List, [], ◌∷◌, ◌++◌, arith}
use belle_sip.Dialog.Defs.{Dialog, Effect, send_queued, terminate_queued, delete, terminate_all}
use belle_sip.Dialog.Requests.{queue_client_transaction, process_queue_now}

-- The queued transactions that a log says were sent or terminated, oldest first.
abbrev pub handled : List Effect → List ℕ
handled [] = []
handled (send_queued q ∷ l) = handled l ++ q ∷ []
handled (terminate_queued q ∷ l) = handled l ++ q ∷ []
handled (_ ∷ l) = handled l

-- The transactions that were ever queued, in order, as the log and the queue tell it.
abbrev pub ever_queued : Dialog → List ℕ
ever_queued d = handled d.log ++ d.queued

-- Queueing appends one transaction.
queue-ever_queued :
    (q : ℕ) (d : Dialog) → ever_queued (queue_client_transaction q d) ≡ ever_queued d ++ q ∷ []
unfolding queue_client_transaction
queue-ever_queued q d = sym (append_assoc (handled d.log) d.queued (q ∷ []))

handled-terminate_all :
    (qs : List ℕ) (l : List Effect) → handled (terminate_all qs l) ≡ handled l ++ qs
handled-terminate_all [] l = sym (append-nil (handled l))
handled-terminate_all (q ∷ qs) l =
    handled-terminate_all qs (terminate_queued q ∷ l) ∙ append_assoc (handled l) (q ∷ []) qs

-- What the queue goes through: a transaction joins, the deferred half of the processing runs, the
-- dialog is deleted.
pub data QueueEvent : Type 0 where
  join : ℕ → QueueEvent
  process remove : QueueEvent

pub run : List QueueEvent → Dialog → Dialog
run [] d = d
run (join q ∷ es) d = run es (queue_client_transaction q d)
run (process ∷ es) d = run es (process_queue_now d)
run (remove ∷ es) d = run es (delete d)

abbrev pub joined : List QueueEvent → List ℕ
joined [] = []
joined (join q ∷ es) = q ∷ joined es
joined (process ∷ es) = joined es
joined (remove ∷ es) = joined es

send_first-ever_queued :
    (qs : List ℕ) (d : Dialog) → d.queued ≡ qs → ever_queued (process_queue_now d) ≡ ever_queued d
unfolding process_queue_now
send_first-ever_queued [] d e = ground arith
send_first-ever_queued (q ∷ qs) d e = ground (arith, append_assoc (handled d.log) (q ∷ []) qs)

delete-ever_queued : (d : Dialog) → ever_queued (delete d) ≡ ever_queued d
unfolding delete
delete-ever_queued d =
    append-nil (handled (terminate_all d.queued d.log)) ∙ handled-terminate_all d.queued d.log

-- Over any history no queued transaction is lost, sent twice or overtaken: what was sent or
-- terminated, followed by what still waits, is what had joined before it, in order.
pub queue_order :
    (es : List QueueEvent) (d : Dialog) → ever_queued (run es d) ≡ ever_queued d ++ joined es
unfolding run
queue_order [] d = sym (append-nil (ever_queued d))
queue_order (join q ∷ es) d =
    queue_order es (queue_client_transaction q d)
    ∙ ap (λ l. l ++ joined es) (queue-ever_queued q d)
    ∙ append_assoc (ever_queued d) (q ∷ []) (joined es)
queue_order (process ∷ es) d =
    queue_order es (process_queue_now d)
    ∙ ap (λ l. l ++ joined es) (send_first-ever_queued d.queued d refl)
queue_order (remove ∷ es) d =
    queue_order es (delete d) ∙ ap (λ l. l ++ joined es) (delete-ever_queued d)
