-- ===== src/Parameters/Parsing.antt =====
-- Parsing parameters: the loop ends, and it gives back what was printed.
use belle_sip.Prelude.{
  ℕ, zero, suc, ◌<◌, ◌≤◌, ◌≡◌, ◌≢◌, ◌⊎◌, ◌∙◌, refl, sym, ap, inl, inr, false, ◌==◌, Option, none,
  some, List, [], ◌∷◌, ◌++◌, map, length, leb, Bool-cases, Option-cases, arith, String, same_string,
  same_string_sym,
}
use mathlib.Core.List.{append_assoc, append-nil}
use belle_sip.Lists.Values.{append, delete_custom}
use belle_sip.Lists.Sorted.{append_lem}
use belle_sip.Lists.Keyed.{named, Fresh, DistinctKeys}
use belle_sip.Parameters.Defs.{
  Pair, pair_name, Parameters, itself, ok, piece_of, marshal, before, after, parse_one, next_param,
  parse, set, clean, set_parameter, copy_pairs,
}
use belle_sip.Parameters.Lookup.{IsWf, map-delete, map-append}
use belle_sip.Parameters.Printing.{all_pieces, at_end, marshal-outcome, outcome}

abbrev pub Lacks : ℕ → String → Type 0
Lacks c [] = Unit
Lacks c (x ∷ s) = (x ≢ c) × Lacks c s

before-none : (c : ℕ) (a : String) → Lacks c a → (before c a ≡ a) × (after c a ≡ none)
unfolding before after
before-none c [] h = (refl, refl)
before-none c (x ∷ a) h = ground (arith, before-none c a h.1)

before-some :
    (c : ℕ) (a b : String)
    → Lacks c a
    → (before c (a ++ c ∷ b) ≡ a) × (after c (a ++ c ∷ b) ≡ some b)
unfolding before after
before-some c [] b h = ground arith
before-some c (x ∷ a) b h = ground (arith, before-some c a b h.1)

after-shorter : (c : ℕ) (s t : String) → after c s ≡ some t → length t < length s
unfolding after
after-shorter c [] t e = absurd (ground arith)
after-shorter c (x ∷ s) t e = elim (Bool-cases (x == c)) [
  | inl h ↦ (let k : some s ≡ some t = rw h at e in ground (arith, k))
  | inr h ↦ omega (arith, after-shorter c s t (rw h at e))
]

next_param-shorter :
    (y : ℕ) (s : String) (z : ℕ) (t : String)
    → next_param (y ∷ s) ≡ z ∷ t
    → length (z ∷ t) < length (y ∷ s)
next_param-shorter y s z t e = elim (Option-cases (after b';' (y ∷ s))) [
  | inl h ↦ absurd (let k : [] ≡ z ∷ t = rw (h, next_param) at e in ground (arith, k))
  | inr (r, h) ↦
      (let k : r ≡ z ∷ t = rw (h, next_param) at e in
        omega (arith, ap length k, after-shorter b';' (y ∷ s) r h))
]

List-cases : (s : String) → (s ≡ []) ⊎ ((z : ℕ) × (t : String) × (s ≡ z ∷ t))
List-cases [] = inl refl
List-cases (z ∷ t) = inr (z, t, refl)

-- What the loop does when its round is over.
abbrev go_on : ℕ → String → Parameters → Option Parameters
go_on k [] p = some p
go_on k (z ∷ t) p = parse k (z ∷ t) p

parse-suc :
    (k : ℕ) (s : String) (p : Parameters)
    → parse (suc k) s p ≡ go_on k (next_param s) (parse_one (before b';' s) p)
unfolding parse
parse-suc k s p = same (next_param s) (parse_one (before b';' s) p)
  where
    same :
        (r : String) (q : Parameters)
        → (elim r as (λ x. Option Parameters) [ [] ↦ some q | z ∷ t ↦ parse k r q ]) ≡ go_on k r q
    same [] q = refl
    same (z ∷ t) q = refl

parse-total :
    (fuel : ℕ) (y : ℕ) (s : String) (p : Parameters)
    → length (y ∷ s) ≤ fuel
    → (q : Parameters) × (parse fuel (y ∷ s) p ≡ some q)
parse-total zero y s p h = absurd (omega arith)
parse-total (suc k) y s p h =
    let p' = parse_one (before b';' (y ∷ s)) p in
    elim (List-cases (next_param (y ∷ s))) [
      | inl e ↦ (p', parse-suc k (y ∷ s) p ∙ ap (λ r. go_on k r p') e)
      | inr (z, t, e) ↦
          let (q, r) = parse-total k z t p' (omega (arith, next_param-shorter y s z t e)) in
          (q, parse-suc k (y ∷ s) p ∙ ap (λ r. go_on k r p') e ∙ r)
    ]

-- The loop ends for every text, with as much fuel as the text is long.
pub set_total :
    (fuel : ℕ) (s : String) (p : Parameters)
    → length s ≤ fuel
    → (q : Parameters) × (set fuel (some s) p ≡ some q)
unfolding set
set_total fuel [] p h = (clean p, refl)
set_total fuel (y ∷ s) p h = parse-total fuel y s (clean p) h

-- A pair that can be told from its text: the name is not empty and has no ';' or '=', the value has
-- no ';'.
abbrev LacksAll : ℕ → Option String → Type 0
LacksAll c none = Unit
LacksAll c (some v) = Lacks c v

pub record IsPlain (x : Pair) : Type 0 where
  pub first : ℕ
  pub others : String
  pub not_empty : x.name ≡ first ∷ others
  pub no_semicolon : Lacks b';' x.name
  pub no_equal : Lacks b'=' x.name
  pub value_fits : LacksAll b';' x.value

abbrev pub AllPlain : List Pair → Type 0
AllPlain [] = Unit
AllPlain (x ∷ l) = IsPlain x × AllPlain l

-- A pair without the ';' in front.
abbrev body : String → Option String → String
body n none = n
body n (some v) = n ++ b'=' ∷ v

body-cons : (c : ℕ) (n : String) (v : Option String) → body (c ∷ n) v ≡ c ∷ body n v
body-cons c n none = refl
body-cons c n (some v) = refl

body-piece_of : (x : Pair) → piece_of x ≡ b';' ∷ body x.name x.value
body-piece_of x = body-cons b';' x.name x.value

Lacks-append : (c : ℕ) (a b : String) → Lacks c a → Lacks c b → Lacks c (a ++ b)
Lacks-append c [] b h k = k
Lacks-append c (x ∷ a) b h k = (h.0, Lacks-append c a b h.1 k)

Lacks-body :
    (n : String) (v : Option String) → Lacks b';' n → LacksAll b';' v → Lacks b';' (body n v)
Lacks-body n none h k = h
Lacks-body n (some v) h k = Lacks-append b';' n (b'=' ∷ v) h (ground arith, k)

parse_one-body :
    (n : String) (v : Option String) (p : Parameters)
    → Lacks b'=' n
    → parse_one (body n v) p ≡ set_parameter n v p
unfolding parse_one
parse_one-body n none p h = (let (a, b) = before-none b'=' n h in rw (a, b) refl)
parse_one-body n (some v) p h = (let (a, b) = before-some b'=' n v h in rw (a, b) refl)

-- The text of a list of pairs without the first ';'.
abbrev joined : Pair → List Pair → String
joined x l = body x.name x.value ++ all_pieces l

joined-cons : (x : Pair) (l : List Pair) → all_pieces (x ∷ l) ≡ b';' ∷ joined x l
joined-cons x l = ap (λ t. t ++ all_pieces l) (body-piece_of x)

joined-not_empty :
    (x : Pair) (l : List Pair) → IsPlain x → (z : ℕ) × (t : String) × (joined x l ≡ z ∷ t)
joined-not_empty x l p = (
  p.first,
  _,
  ap (λ n. body n x.value ++ all_pieces l) p.not_empty
      ∙ ap (λ t. t ++ all_pieces l) (body-cons p.first p.others x.value),
)

-- The first pair of a text and what follows.
joined-split :
    (x : Pair) (l : List Pair)
    → IsPlain x
    → (before b';' (joined x l) ≡ body x.name x.value)
      × (next_param (joined x l) ≡ (elim l [ [] ↦ [] | y ∷ m ↦ joined y m ]))
joined-split x [] p =
    let b = body x.name x.value in
    let (e, f) = before-none b';' b (Lacks-body x.name x.value p.no_semicolon p.value_fits) in
    rw (append-nil b) (e, rw (f, next_param) refl)
joined-split x (y ∷ m) p =
    let b = body x.name x.value in
    let lacks = Lacks-body x.name x.value p.no_semicolon p.value_fits in
    let (e, f) = before-some b';' b (joined y m) lacks in
    let k : joined x (y ∷ m) ≡ b ++ b';' ∷ joined y m = ap (λ t. b ++ t) (joined-cons y m) in
    (ap (before b';') k ∙ e, ap next_param k ∙ rw (f, next_param) refl)

-- The loop sets the pairs one by one.
parse-joined :
    (fuel : ℕ) (x : Pair) (l : List Pair) (p : Parameters)
    → AllPlain (x ∷ l)
    → length l < fuel
    → parse fuel (joined x l) p ≡ some (copy_pairs (x ∷ l) p)
unfolding copy_pairs
parse-joined zero x l p a h = absurd (omega arith)
parse-joined (suc k) x [] p a h =
    let (b, n) = joined-split x [] a.0 in
    parse-suc k (joined x []) p
    ∙ ap (λ r. go_on k r (parse_one (before b';' (joined x [])) p)) n
    ∙ ap some (ap (λ t. parse_one t p) b ∙ parse_one-body x.name x.value p a.0.no_equal)
parse-joined (suc k) x (y ∷ m) p a h =
    let (b, n) = joined-split x (y ∷ m) a.0 in
    let p' = parse_one (before b';' (joined x (y ∷ m))) p in
    let one : p' ≡ set_parameter x.name x.value p =
      ap (λ t. parse_one t p) b ∙ parse_one-body x.name x.value p a.0.no_equal in
    let (z, t, e) = joined-not_empty y m a.1.0 in
    parse-suc k (joined x (y ∷ m)) p
    ∙ ap (λ r. go_on k r p') (n ∙ e)
    ∙ ap (λ r. parse k r p') (sym e)
    ∙ ap (parse k (joined y m)) one
    ∙ parse-joined k y m (set_parameter x.name x.value p) a.1 (omega arith)

abbrev pub params_of : List Pair → Parameters
params_of l = record { param_list = l; paramnames_list = map pair_name l }

delete-absent :
    (n : String) (l : List Pair) → Fresh pair_name n l → delete_custom (named pair_name n) l ≡ l
unfolding delete_custom
delete-absent n [] f = refl
delete-absent n (x ∷ l) f = rw (f.0) (ap (◌∷◌ x) (delete-absent n l f.1))

Fresh-middle :
    (x : Pair) (d l : List Pair) → DistinctKeys pair_name (d ++ x ∷ l) → Fresh pair_name x.name d
Fresh-middle x [] l k = tt
Fresh-middle x (y ∷ d) l k =
    (same_string_sym y.name x.name ∙ apart y.name d k.0, Fresh-middle x d l k.1)
  where
    apart :
        (n : String) (d : List Pair) → Fresh pair_name n (d ++ x ∷ l) → same_string x.name n ≡ false
    apart n [] f = f.0
    apart n (z ∷ d) f = apart n d f.1

set_parameter-new :
    (x : Pair) (d : List Pair)
    → Fresh pair_name x.name d
    → set_parameter x.name x.value (params_of d) ≡ params_of (d ++ x ∷ [])
unfolding set_parameter
set_parameter-new x d f =
    let e = delete-absent x.name d f in
    let a : append (delete_custom (named pair_name x.name) d) x ≡ d ++ x ∷ [] =
      ap (λ l. append l x) e ∙ append_lem d x in
    let b : append (delete_custom (named itself x.name) (map pair_name d)) x.name
        ≡ map pair_name (d ++ x ∷ []) =
      ap (λ l. append l x.name) (sym (map-delete x.name d))
      ∙ sym (map-append (delete_custom (named pair_name x.name) d) x)
      ∙ ap (map pair_name) a in
    rw (a, b) refl

copy_pairs-new :
    (d l : List Pair)
    → DistinctKeys pair_name (d ++ l)
    → copy_pairs l (params_of d) ≡ params_of (d ++ l)
unfolding copy_pairs
copy_pairs-new d [] k = ap params_of (sym (append-nil d))
copy_pairs-new d (x ∷ l) k =
    let a = append_assoc d (x ∷ []) l in
    ap (copy_pairs l) (set_parameter-new x d (Fresh-middle x d l k))
    ∙ copy_pairs-new (d ++ x ∷ []) l (rw a k)
    ∙ ap params_of a

outcome-fits : (size : ℕ) (s : String) → length s < size → outcome size s ≡ (ok, at_end s)
outcome-fits size s h = (let e : leb size (length s) ≡ false = ground arith in rw e refl)

same_params : (p : Parameters) → IsWf p → params_of p.param_list ≡ p
same_params p w =
    ap (λ n. record { param_list = p.param_list; paramnames_list = n }) (sym w.in_step)

-- Parameters that differ in their names and have plain texts, printed into a buffer in which they fit,
-- are given back by the parser from the text behind the first ';', whatever was there before.
pub set-marshal :
    (size fuel : ℕ) (p q : Parameters) (x : Pair) (l : List Pair)
    → IsWf p
    → p.param_list ≡ x ∷ l
    → AllPlain (x ∷ l)
    → length (all_pieces (x ∷ l)) < size
    → length l < fuel
    → (t : String) × (marshal size p (at_end []) ≡ (ok, at_end (b';' ∷ t)))
      × (set fuel (some t) q ≡ some p)
unfolding set clean
set-marshal size fuel p q x l w e a h f =
    let m = marshal-outcome size p [] (omega arith) in
    let c = joined-cons x l in
    let (z, t, k) = joined-not_empty x l a.0 in
    let whole : params_of (x ∷ l) ≡ p = ap params_of (sym e) ∙ same_params p w in
    (
      joined x l,
      m
          ∙ ap (λ k. outcome size (all_pieces k)) e
          ∙ outcome-fits size (all_pieces (x ∷ l)) h
          ∙ ap (λ s. (ok, at_end s)) c,
      ap (λ s. set fuel (some s) q) k
          ∙ ap (λ s. parse fuel s (params_of [])) (sym k)
          ∙ parse-joined fuel x l (params_of []) a f
          ∙ ap some (copy_pairs-new [] (x ∷ l) (rw e at (w.distinct)) ∙ whole),
    )
