-- ===== src/Lists/Appending.antt =====
-- belle_sip_list_append_link in memory: the walk to the last link ends, and the new link follows it.
use mathlib.Core.List.{append_assoc}
use belle_sip.Prelude.{
  ℕ, zero, suc, ◌<◌, ◌≤◌, ◌≡◌, ◌≢◌, ◌∙◌, ap, refl, sym, inl, inr, Option, none, some, List, [], ◌∷◌,
  ◌++◌, length, arith,
}
use belle_sip.Lists.Nodes.{node, Heap, write, last_link, append_link}
use belle_sip.Lists.Links.{
  Cell, first, last, Seg, NotAt, Distinct, Seg-split, Seg-join, Seg-write, NotAt-split, IsList,
}
use belle_sip.Lists.Removal.{last_cell}

last_link-last :
    (fuel : ℕ) (h : Heap) (p : Option ℕ) (c : Cell) (cs : List Cell)
    → Seg h p (c ∷ cs) none
    → length cs < fuel
    → last_link fuel h c.at ≡ last p (c ∷ cs)
unfolding last_link
last_link-last zero h p c cs s f = absurd (omega arith)
last_link-last (suc k) h p c [] s f = rw (s.0) refl
last_link-last (suc k) h p c (d ∷ cs) s f =
    rw (s.0) (last_link-last k h (some c.at) d cs s.1 (omega arith))

Distinct-snoc : (xs : List Cell) (c : Cell) → Distinct xs → NotAt c.at xs → Distinct (xs ++ c ∷ [])
Distinct-snoc [] c d o = (tt, tt)
Distinct-snoc (x ∷ xs) c d o =
    (NotAt-snoc x.at xs c d.0 (λ e. o.0 (sym e)), Distinct-snoc xs c d.1 o.1)
  where
    NotAt-snoc :
        (n : ℕ) (us : List Cell) (v : Cell) → NotAt n us → v.at ≢ n → NotAt n (us ++ v ∷ [])
    NotAt-snoc n [] v a b = (b, tt)
    NotAt-snoc n (u ∷ us) v a b = (a.0, NotAt-snoc n us v a.1 b)

-- The list with the cell `c` behind it.
pub record IsExtended (fuel : ℕ) (h : Heap) (start : Option ℕ) (cs : List Cell) (c : Cell)
    : Type 0 where
  pub start' : Option ℕ
  pub heap : Heap
  pub result : append_link fuel h start (some c.at) ≡ some (start', heap)
  pub extended : IsList heap start' (cs ++ c ∷ [])

append_last :
    (fuel : ℕ) (h : Heap) (p : ℕ) (zs : List Cell) (b c : Cell)
    → last_link fuel h p ≡ some b.at
    → Seg h none (zs ++ b ∷ []) none
    → h c.at ≡ some (node none none c.item)
    → NotAt c.at (zs ++ b ∷ [])
    → NotAt b.at zs
    → let h1 = write h b.at (node (last none zs) (some c.at) b.item) in
      let h2 = write h1 c.at (node (some b.at) none c.item) in
      (append_link fuel h (some p) (some c.at) ≡ some (some p, h2))
      × Seg h2 none (zs ++ b ∷ c ∷ []) none
unfolding append_link
append_last fuel h p zs b c e s i o f =
    let h1 = write h b.at (node (last none zs) (some c.at) b.item) in
    let (sz, sb) = Seg-split h none zs (b ∷ []) none s in
    let (oz, ob) = NotAt-split c.at zs (b ∷ []) o in
    (
      rw e (ground (arith, sb.0, i, ob.0)),
      Seg-join (write h1 c.at (node (some b.at) none c.item)) none zs (b ∷ c ∷ []) none
          (Seg-write h1 c.at (node (some b.at) none c.item) none zs (some b.at) oz
            (Seg-write h b.at (node (last none zs) (some c.at) b.item) none zs (some b.at) f sz))
          (ground (arith, ob.0), (ground arith, tt)),
    )

last-snoc : (p : Option ℕ) (zs : List Cell) (b : Cell) → last p (zs ++ b ∷ []) ≡ some b.at
last-snoc p [] b = refl
last-snoc p (z ∷ zs) b = last-snoc (some z.at) zs b

not_before : (zs : List Cell) (b : Cell) → Distinct (zs ++ b ∷ []) → NotAt b.at zs
not_before [] b d = tt
not_before (z ∷ zs) b d =
    let (_, r) = NotAt-split z.at zs (b ∷ []) d.0 in ((λ e. r.0 (sym e)), not_before zs b d.1)

first-snoc :
    (zs : List Cell) (b c : Cell)
    → first (zs ++ b ∷ []) none ≡ first ((zs ++ b ∷ []) ++ c ∷ []) none
first-snoc [] b c = refl
first-snoc (z ∷ zs) b c = refl

snoc_start :
    (fuel : ℕ) (h : Heap) (start : Option ℕ) (zs : List Cell) (b : Cell)
    → IsList h start (zs ++ b ∷ [])
    → length (zs ++ b ∷ []) ≤ fuel
    → (p : ℕ) × (start ≡ some p) × (last_link fuel h p ≡ some b.at)
snoc_start fuel h start [] b l f =
    (b.at, l.begins, last_link-last fuel h none b [] l.chain (omega arith))
snoc_start fuel h start (z ∷ zs) b l f = (
  z.at,
  l.begins,
  last_link-last fuel h none z (zs ++ b ∷ []) l.chain (omega arith) ∙ last-snoc none (z ∷ zs) b,
)

-- Appending an isolated link that the list does not hold gives the list with that link at its end,
-- linked both ways, if the walk has as many rounds as the list has links.
pub append_link-IsExtended :
    (fuel : ℕ) (h : Heap) (start : Option ℕ) (cs : List Cell) (c : Cell)
    → IsList h start cs
    → h c.at ≡ some (node none none c.item)
    → NotAt c.at cs
    → length cs ≤ fuel
    → IsExtended fuel h start cs c
unfolding append_link
append_link-IsExtended fuel h start cs c l i o f = elim (last_cell cs) [
  | inl e ↦ rw e (record {
    start' = some c.at;
    heap = h;
    result = rw (rw e at (l.begins)) refl;
    extended = record { begins = refl; chain = (i, tt); distinct = (tt, tt) };
  })
  | inr (zs, b, e) ↦
      let l' = rw e at l in
      let (p, s, w) = snoc_start fuel h start zs b l' (rw e at f) in
      let o' = rw e at o in
      let (r, g) = append_last fuel h p zs b c w l'.chain i o' (not_before zs b l'.distinct) in
      rw e (record {
        start' = some p;
        heap = _;
        result = ap (λ t. append_link fuel h t (some c.at)) s ∙ r;
        extended = record {
          begins = sym s ∙ l'.begins ∙ first-snoc zs b c;
          chain = rw (append_assoc zs (b ∷ []) (c ∷ [])) g;
          distinct = Distinct-snoc (zs ++ b ∷ []) c l'.distinct o';
        };
      })
]
