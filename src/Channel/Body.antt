-- ===== src/Channel/Body.antt =====
-- A body is the same in however many pieces it comes.
use belle_sip.Prelude.{
  ℕ, zero, suc, ◌+◌, ◌-◌, ◌<◌, ◌≤◌, ◌≡◌, ◌∙◌, refl, sym, ap, inl, inr, min, Bool, true, false, ◌==◌,
  ◌&&◌, some, List, [], ◌∷◌, ◌++◌, length, length-append, take, drop, ltb, leb, if◌then◌else◌,
  Bool-cases, arith, String,
}
use mathlib.Core.List.{append_assoc, append-nil}
use mathlib.Core.Path.{subst}
use belle_sip.Channel.Stream.{
  waiting_message_start, Message, Stream, message_ready, expects_body, check_body, begin_body,
  take_part, acquire_body_simple, receive, acquire_pieces,
}

-- All bytes of the pieces.
abbrev pub joined : List String → String
joined [] = []
joined (d ∷ ds) = d ++ joined ds

-- Two ways to cut one text.
cut_past :
    (d e y r : String)
    → d ++ e ≡ y ++ r
    → length y ≤ length d
    → (take (length y) d ≡ y) × (drop (length y) d ++ e ≡ r)
cut_past d e [] r q h = (refl, q)
cut_past [] e (b ∷ y) r q h = absurd (omega arith)
cut_past (a ∷ d) e (b ∷ y) r q h =
    let (i, j) = cut_past d e y r (ground (arith, q)) (omega arith) in
    let k : a ≡ b = ground (arith, q) in (rw (k, i) refl, j)

cut_before :
    (d e y r : String)
    → d ++ e ≡ y ++ r
    → length d < length y
    → (z : String) × (y ≡ d ++ z) × (e ≡ z ++ r)
cut_before [] e y r q h = (y, refl, q)
cut_before (a ∷ d) e [] r q h = absurd (omega arith)
cut_before (a ∷ d) e (b ∷ y) r q h =
    let (z, i, j) = cut_before d e y r (ground (arith, q)) (omega arith) in
    let k : b ≡ a = ground (arith, q) in (z, ap (λ c. c ∷ y) k ∙ ap (◌∷◌ a) i, j)

take_long : (n : ℕ) (d : String) → length d ≤ n → (take n d ≡ d) × (drop n d ≡ [])
take_long zero [] h = (refl, refl)
take_long zero (a ∷ d) h = absurd (omega arith)
take_long (suc n) [] h = (refl, refl)
take_long (suc n) (a ∷ d) h = let (i, j) = take_long n d (omega arith) in (ap (◌∷◌ a) i, j)

take_nil : (k : ℕ) → (take {A = ℕ} k [] ≡ []) × (drop {A = ℕ} k [] ≡ [])
take_nil zero = (refl, refl)
take_nil (suc k) = (refl, refl)

take-min :
    (k : ℕ) (d : String)
    → (take (min k (length d)) d ≡ take k d) × (drop (min k (length d)) d ≡ drop k d)
take-min k [] = let (a, b) = take_nil (min k 0) in let (c, d) = take_nil k in (a ∙ sym c, b ∙ sym d)
take-min zero (a ∷ d) =
    let e : min zero (suc (length d)) ≡ zero = omega arith in rw e ((refl, refl))
take-min (suc k) (a ∷ d) =
    let e : min (suc k) (suc (length d)) ≡ suc (min k (length d)) = omega arith in
    let (i, j) = take-min k d in rw e ((ap (◌∷◌ a) i, j))

-- What take_part leaves of a body that misses `k` bytes.
record IsPart (s t : Stream) (k : ℕ) : Type 0 where
  body_is : t.body ≡ s.body ++ take k s.pending
  pending_is : t.pending ≡ drop k s.pending
  length_is : t.content_length ≡ s.content_length
  msg_is : t.msg ≡ s.msg
  incoming_is : t.incoming ≡ s.incoming

nil-length : (d : String) → length d ≡ 0 → d ≡ []
nil-length [] h = refl
nil-length (a ∷ d) h = absurd (omega arith)

take_part-IsPart :
    (s : Stream)
    → length s.body < s.content_length
    → IsPart s (take_part s) (s.content_length - length s.body)
unfolding take_part
take_part-IsPart s h = elim (Bool-cases (length s.body == 0 && length s.pending == 0)) [
  | inl e ↦
      let k = s.content_length - length s.body in
      let p = nil-length s.pending (ground (arith, e)) in
      let (i, j) = take_nil k in
      rw (e, take_part)
        (record {
          body_is =
              sym (ap (λ d. s.body ++ take k d) p ∙ ap (λ d. s.body ++ d) i ∙ append-nil s.body);
          pending_is = p ∙ sym (ap (drop k) p ∙ j);
          length_is = refl;
          msg_is = refl;
          incoming_is = refl;
        })
  | inr e ↦
      let k = s.content_length - length s.body in
      let (i, j) = take-min k s.pending in
      let c : ltb s.content_length (length s.body) ≡ false = ground arith in
      rw (e, take_part, c)
        (record {
          body_is = ap (λ d. s.body ++ d) i;
          pending_is = j;
          length_is = refl;
          msg_is = refl;
          incoming_is = refl;
        })
]

-- Acquiring ends exactly if the part completes the body.
acquire_complete :
    (s : Stream) (b : Bool)
    → leb (take_part s).content_length (length (take_part s).body) ≡ b
    → acquire_body_simple false s
      ≡ (if b then (message_ready (take_part s), true) else (take_part s, false))
unfolding acquire_body_simple
acquire_complete s b h = rw (acquire_body_simple, h) refl

-- What becomes of a stream in which `y` is missing of the body, and `y` and more come in pieces.
pub record IsComplete (s : Stream) (whole : String) (rest : String)
    (r : (Stream × Bool) × List String) : Type 0 where
  pub ended : r.0.1 ≡ true
  pub delivered : r.0.0.incoming ≡ s.incoming ++ (s.msg, whole) ∷ []
  pub waits : r.0.0.state ≡ waiting_message_start
  pub leftover : r.0.0.pending ++ joined r.1 ≡ rest

-- A body of `x`, of which `y` is missing.
pub record IsCollecting (s : Stream) (x y : String) : Type 0 where
  pub collected : s.body ≡ x
  pub nothing : s.pending ≡ []
  pub expected : s.content_length ≡ length (x ++ y)
  pub missing : 0 < length y

abbrev next_piece : List String → Stream × Bool → (Stream × Bool) × List String
next_piece ds r = if r.1 then (r, ds) else acquire_pieces ds r.0

collect :
    (ds : List String) (s : Stream) (x y rest : String)
    → IsCollecting s x y
    → joined ds ≡ y ++ rest
    → IsComplete s (x ++ y) rest (acquire_pieces ds s)
unfolding acquire_pieces
collect [] s x [] rest c q = absurd (omega (arith, c.missing))
collect [] s x (b ∷ y) rest c q = absurd (ground arith)
collect (d ∷ ds) s x y rest c q =
    let n = length-append x y in
    let s1 = receive d s in
    let t = take_part s1 in
    let short : length s1.body < s1.content_length =
      omega (arith, c.expected, c.missing, n, ap length c.collected) in
    let k : s1.content_length - length s1.body ≡ length y =
      omega (arith, c.expected, n, ap length c.collected) in
    let part = take_part-IsPart s1 short in
    let pending : s1.pending ≡ d = ap (λ p. p ++ d) c.nothing in
    let body : t.body ≡ x ++ take (length y) d =
      part.body_is
      ∙ ap (λ b. b ++ take (s1.content_length - length s1.body) s1.pending) c.collected
      ∙ ap (λ m. x ++ take m s1.pending) k
      ∙ ap (λ p. x ++ take (length y) p) pending in
    let left : t.pending ≡ drop (length y) d =
      part.pending_is ∙ ap (λ m. drop m s1.pending) k ∙ ap (drop (length y)) pending in
    elim (Bool-cases (leb (length y) (length d))) [
      | inl full ↦
          let (i, j) = cut_past d (joined ds) y rest q (ground (arith, full)) in
          let whole : t.body ≡ x ++ y = body ∙ ap (λ p. x ++ p) i in
          let h : leb t.content_length (length t.body) ≡ true =
            ground (arith, ap length whole, part.length_is, c.expected) in
          subst (λ r. IsComplete s (x ++ y) rest (next_piece ds r))
            (sym (acquire_complete s1 true h))
            (record {
              ended = refl;
              delivered =
                  rw (part.incoming_is, part.msg_is)
                    (ap (λ b. s.incoming ++ (s.msg, b) ∷ []) whole);
              waits = refl;
              leftover = ap (λ p. p ++ joined ds) left ∙ j;
            })
      | inr more ↦
          let (z, i, j) = cut_before d (joined ds) y rest q (ground (arith, more)) in
          let (all, none_left) = take_long (length y) d (ground (arith, more)) in
          let so_far : t.body ≡ x ++ d = body ∙ ap (λ p. x ++ p) all in
          let lengths : length y ≡ length d + length z = ap length i ∙ length-append d z in
          let h : leb t.content_length (length t.body) ≡ false =
            ground
              (arith, ap length so_far, length-append x d, part.length_is, c.expected, n, more) in
          let same : (x ++ d) ++ z ≡ x ++ y = append_assoc x d z ∙ ap (λ p. x ++ p) (sym i) in
          let ih =
            collect ds t (x ++ d) z rest
              (record {
                collected = so_far;
                nothing = left ∙ none_left;
                expected = part.length_is ∙ c.expected ∙ sym (ap length same);
                missing = ground (arith, lengths, more);
              })
              j in
          subst (λ r. IsComplete s (x ++ y) rest (next_piece ds r))
            (sym (acquire_complete s1 false h))
            (record {
              ended = ih.ended;
              delivered =
                  ih.delivered
                  ∙ ap (λ b. t.incoming ++ (t.msg, b) ∷ []) same
                  ∙ ap (λ o. o ++ (t.msg, x ++ y) ∷ []) part.incoming_is
                  ∙ ap (λ m. s.incoming ++ (m, x ++ y) ∷ []) part.msg_is;
              waits = ih.waits;
              leftover = ih.leftover;
            })
    ]

-- A SIP message with a Content-Length gets exactly as many bytes as that says, in however many pieces
-- they come and whatever comes with the last: the message is then ready with this body, the
-- stream waits for the next message, and the other bytes are still there.
pub sip_body :
    (m : Message) (s : Stream) (ds : List String) (whole rest : String)
    → m.is_sip ≡ true
    → m.length_header ≡ some (length whole)
    → 0 < length whole
    → s.pending ≡ []
    → joined ds ≡ whole ++ rest
    → (expects_body m ≡ true)
      × IsComplete (begin_body m s) whole rest (acquire_pieces ds (begin_body m s))
unfolding check_body
sip_body m s ds whole rest i l n p q = (
  rw (i, l) (ground (arith, n)),
  collect ds (begin_body m s) [] whole rest
      (record { collected = refl; nothing = rw i p; expected = rw (i, l) refl; missing = n }) q,
)
