-- ===== src/Channel/Sending.antt =====
-- Messages that a socket takes, in pieces but without blocking, are sent whole and in order.
use belle_sip.Prelude.{
  take-drop, ℕ, zero, suc, ◌+◌, ◌<◌, ◌≤◌, ◌≡◌, ◌∙◌, refl, sym, ap, inl, inr, min, Bool, false, ◌==◌,
  List, [], ◌∷◌, ◌++◌, length, length-append, take, drop, length-drop, if◌then◌else◌, Bool-cases,
  arith, String,
}
use mathlib.Core.List.{append_assoc, append-nil}
use mathlib.Core.Path.{subst}
use belle_sip.Channel.Output.{
  Reply, accept, would_block, closed, broken, Output, room, all_sent, Delivery, deliver, Next,
  onward, finished, send_text, send_chunk, next_chunk, send_body, after_verdict, room_positive,
}

-- Replies that take some bytes.
abbrev pub AllAccept : List Reply → Type 0
AllAccept [] = Unit
AllAccept (accept k ∷ rs) = AllAccept rs
AllAccept (_ ∷ rs) = ⊥

nil-length : (s : String) → length s ≡ 0 → s ≡ []
nil-length [] h = refl
nil-length (a ∷ s) h = absurd (omega arith)

-- A delivery that sends a text whole.
pub record Whole (rs : List Reply) (text : String) (d : Delivery) : Type 0 where
  pub verdict_is : d.verdict ≡ all_sent
  pub sent_is : d.sent ≡ text
  pub accepts : AllAccept d.unused
  pub enough : length rs ≤ length d.unused + length text

pub deliver-Whole :
    (rs : List Reply) (text : String)
    → AllAccept rs
    → 0 < length text
    → length text ≤ length rs
    → Whole rs text (deliver rs text)
unfolding deliver
deliver-Whole [] text a p h = absurd (omega arith)
deliver-Whole (would_block ∷ rs) text a p h = absurd a
deliver-Whole (closed ∷ rs) text a p h = absurd a
deliver-Whole (broken ∷ rs) text a p h = absurd a
deliver-Whole (accept k ∷ rs) text a p h =
    let n = min (k + 1) (length text) in
    let some_taken : (n == 0) ≡ false = ground arith in
    let parts = take-drop n text in
    elim (Bool-cases (length (drop n text) == 0)) [
      | inl e ↦
          let none_left = nil-length (drop n text) (ground (arith, e)) in
          rw (some_taken, e, deliver)
            (record {
              verdict_is = refl;
              sent_is =
                  sym (append-nil (take n text))
                  ∙ ap (λ r. take n text ++ r) (sym none_left)
                  ∙ parts;
              accepts = a;
              enough = omega arith;
            })
      | inr e ↦
          let l = length-drop n text in
          let w = deliver-Whole rs (drop n text) a (ground (arith, e)) (omega (arith, l)) in
          rw (some_taken, e, deliver)
            (record {
              verdict_is = w.verdict_is;
              sent_is = ap (λ r. take n text ++ r) w.sent_is ∙ parts;
              accepts = w.accepts;
              enough = omega (arith, w.enough, l);
            })
    ]

-- A channel whose socket takes all that is sent from now on, at least so many bytes.
pub record CanSend (o : Output) (n : ℕ) : Type 0 where
  pub ready_replies : AllAccept o.replies
  pub replies_left : n ≤ length o.replies

-- The channel `p` is `o` when a text has been sent, with replies for what comes then.
pub record HasSent (o : Output) (text : String) (p : Output) : Type 0 where
  pub replies_after : List Reply
  pub accepts_after : AllAccept replies_after
  pub enough_after : length o.replies ≤ length replies_after + length text
  pub after : p ≡ record o { wire = o.wire ++ text; replies = replies_after }

pub send_text_whole :
    (text : String) (o : Output)
    → CanSend o (length text)
    → 0 < length text
    → ((send_text text o).1 ≡ onward) × HasSent o text (send_text text o).0
unfolding send_text
send_text_whole text o c p =
    let w = deliver-Whole o.replies text c.ready_replies p c.replies_left in
    rw (w.verdict_is, send_text)
      (
        refl,
        record {
          replies_after = (deliver o.replies text).unused;
          accepts_after = w.accepts;
          enough_after = w.enough;
          after =
              let d = deliver o.replies text in
              ap
                (λ v. record o {
                  wire = o.wire ++ d.sent;
                  replies = d.unused;
                  connection = after_verdict v o.connection;
                })
                w.verdict_is
              ∙ ap (λ t. record o { wire = o.wire ++ t; replies = d.unused }) w.sent_is;
        },
      )

chunk_text :
    (chunk : String) (o : Output) → 0 < length chunk → send_chunk chunk o ≡ send_text chunk o
chunk_text [] o h = absurd (omega arith)
chunk_text (a ∷ chunk) o h = refl

chunk_onward :
    (last : Bool) (r rest : Output × Next)
    → r.1 ≡ onward
    → next_chunk last r rest ≡ (if last then (r.0, finished) else rest)
chunk_onward last r rest e = rw e refl

-- The bytes that a channel has sent one after another.
pub HasSent-trans :
    (o p q : Output) (a b : String) → HasSent o a p → HasSent p b q → HasSent o (a ++ b) q
HasSent-trans o p q a b h k =
    let w : p.wire ≡ o.wire ++ a = ap (λ x. x.wire) h.after in
    let r : p.replies ≡ h.replies_after = ap (λ x. x.replies) h.after in
    record {
      replies_after = k.replies_after;
      accepts_after = k.accepts_after;
      enough_after = omega (arith, h.enough_after, k.enough_after, length-append a b, ap length r);
      after =
          k.after
          ∙ ap {A = Output} (λ x. record x { wire = p.wire ++ b; replies = k.replies_after })
              h.after
          ∙ ap (λ x. record o { wire = x; replies = k.replies_after })
              (ap (λ x. x ++ b) w ∙ append_assoc o.wire a b);
    }

drop_nil : (n : ℕ) → drop {A = ℕ} n [] ≡ []
drop_nil zero = refl
drop_nil (suc n) = refl

take_nil : (n : ℕ) → take {A = ℕ} n [] ≡ []
take_nil zero = refl
take_nil (suc n) = refl

pub send_body_whole :
    (fuel : ℕ) (o : Output)
    → CanSend o (length o.to_send)
    → length o.to_send < fuel
    → ((send_body fuel o).1 ≡ finished)
      × HasSent (record o { to_send = [] }) o.to_send (send_body fuel o).0
unfolding send_body
send_body_whole zero o c h = absurd (omega arith)
send_body_whole (suc fuel) o c h = by_body o.to_send refl (λ p. send_body_whole fuel p)
  where
    Result : Output × Next → Type 0
    Result k = (k.1 ≡ finished) × HasSent (record o { to_send = [] }) o.to_send k.0

    by_body :
        (b : String)
        → o.to_send ≡ b
        → ((p : Output)
            → CanSend p (length p.to_send)
            → length p.to_send < fuel
            → ((send_body fuel p).1 ≡ finished)
              × HasSent (record p { to_send = [] }) p.to_send (send_body fuel p).0)
        → ((send_body (suc fuel) o).1 ≡ finished)
          × HasSent (record o { to_send = [] }) o.to_send (send_body (suc fuel) o).0
    by_body [] e ih =
        let d = drop_nil room in
        let t = take_nil room in
        rw (e, t, d)
          (
            refl,
            record {
              replies_after = o.replies;
              accepts_after = c.ready_replies;
              enough_after = omega arith;
              after = ap (λ w. record o { to_send = []; wire = w }) (sym (append-nil o.wire));
            },
          )
    by_body (a ∷ b) e ih =
        let chunk = take room o.to_send in
        let left = drop room o.to_send in
        let o1 = record o { to_send = left } in
        let parts = take-drop room o.to_send in
        let l = length-drop room o.to_send in
        let n = length-append chunk left ∙ refl in
        let total : length o.to_send ≡ length chunk + length left = sym (ap length parts) ∙ n in
        let pos : 0 < length chunk = omega (arith, total, l, ap length e, room_positive) in
        let can : CanSend o1 (length chunk) = record {
          ready_replies = c.ready_replies;
          replies_left = omega (arith, c.replies_left, total);
        } in
        let e1 = chunk_text chunk o1 pos in
        let (v, s) = send_text_whole chunk o1 can pos in
        let r = send_text chunk o1 in
        let step : send_body (suc fuel) o
            ≡ (if length left == 0 then (r.0, finished) else send_body fuel r.0) =
          ap (λ k. next_chunk (length left == 0) k (send_body fuel k.0)) e1
          ∙ chunk_onward (length left == 0) r (send_body fuel r.0) v in
        elim (Bool-cases (length left == 0)) [
          | inl z ↦
              let none_left = nil-length left (ground (arith, z)) in
              let whole : chunk ≡ o.to_send =
                sym (append-nil chunk) ∙ ap (λ d. chunk ++ d) (sym none_left) ∙ parts in
              subst Result
                (sym (step ∙ ap (λ y. if y then (r.0, finished) else send_body fuel r.0) z))
                (
                  refl,
                  subst (λ t. HasSent (record o { to_send = [] }) t r.0) whole
                      (subst (λ y. HasSent (record o { to_send = y }) chunk r.0) none_left s),
                )
          | inr z ↦
              let q : r.0.to_send ≡ left = ap (λ x. x.to_send) s.after in
              let ra : r.0.replies ≡ s.replies_after = ap (λ x. x.replies) s.after in
              let next_can : CanSend r.0 (length r.0.to_send) = record {
                ready_replies = subst AllAccept (sym ra) s.accepts_after;
                replies_left =
                    omega (arith, s.enough_after, ap length ra, ap length q, c.replies_left, total);
              } in
              let (f, m) = ih r.0 next_can (omega (arith, ap length q, total)) in
              let emptied : HasSent (record o { to_send = [] }) chunk
                  (record (r.0) { to_send = [] }) =
                record {
                  replies_after = s.replies_after;
                  accepts_after = s.accepts_after;
                  enough_after = s.enough_after;
                  after = ap {A = Output} (λ x. record x { to_send = [] }) s.after;
                } in
              subst Result
                (sym (step ∙ ap (λ y. if y then (r.0, finished) else send_body fuel r.0) z))
                (
                  f,
                  subst (λ t. HasSent (record o { to_send = [] }) t (send_body fuel r.0).0)
                      (ap (λ d. chunk ++ d) q ∙ parts)
                      (HasSent-trans (record o { to_send = [] }) (record (r.0) { to_send = [] })
                        (send_body fuel r.0).0 chunk r.0.to_send emptied m),
                )
        ]
