-- ===== src/Lists/Removal.antt =====
-- belle_sip_list_remove_link in memory.
use mathlib.Core.List.{append_assoc}
use mathlib.Core.Path.{subst}
use belle_sip.Prelude.{
  ℕ, ◌≡◌, ◌≢◌, ◌∙◌, ap, refl, sym, ◌⊎◌, inl, inr, false, Option, none, some, List, [], ◌∷◌, ◌++◌,
  arith,
}
use belle_sip.Lists.Nodes.{node, Heap, write, same, remove_link}
use belle_sip.Lists.Links.{
  Cell, first, last, Seg, NotAt, Distinct, Apart, Seg-split, Seg-join, Seg-write, NotAt-split,
  Distinct-split, IsList,
}

-- What the removal of the cell `a` from between `xs` and `ys` gives.
pub record IsRemoval (h : Heap) (start : Option ℕ) (xs : List Cell) (a : Cell) (ys : List Cell)
    : Type 0 where
  pub start' : Option ℕ
  pub heap : Heap
  pub result : remove_link h start a.at ≡ some (start', heap)
  pub remains : IsList heap start' (xs ++ ys)
  pub isolated : heap a.at ≡ some (node none none a.item)
  -- nothing else in memory has changed
  pub frame : (n : ℕ) → NotAt n (xs ++ a ∷ ys) → heap n ≡ h n

NotAt-drop_after :
    (n : ℕ) (zs : List Cell) (b a : Cell) (ys : List Cell)
    → NotAt n (zs ++ b ∷ a ∷ ys)
    → NotAt n (zs ++ b ∷ ys)
NotAt-drop_after n [] b a ys o = (o.0, o.1.1)
NotAt-drop_after n (z ∷ zs) b a ys o = (o.0, NotAt-drop_after n zs b a ys o.1)

pub last_cell : (xs : List Cell) → (xs ≡ []) ⊎ ((zs : List Cell) × (b : Cell) × (xs ≡ zs ++ b ∷ []))
last_cell [] = inl refl
last_cell (x ∷ xs) = elim (last_cell xs) [
  | inl e ↦ inr ([], x, ap (◌∷◌ x) e)
  | inr (zs, b, e) ↦ inr (x ∷ zs, b, ap (◌∷◌ x) e)
]

last-append : (p : Option ℕ) (zs : List Cell) (b : Cell) → last p (zs ++ b ∷ []) ≡ some b.at
last-append p [] b = refl
last-append p (z ∷ zs) b = last-append (some z.at) zs b

remove_first :
    (h : Heap) (start : Option ℕ) (a : Cell) (ys : List Cell)
    → IsList h start (a ∷ ys)
    → IsRemoval h start [] a ys
unfolding remove_link
remove_first h start a [] l = record {
  start' = none;
  heap = write h a.at (node none none a.item);
  result = ground (arith, l.begins, l.chain.0);
  remains = record { begins = refl; chain = tt; distinct = tt };
  isolated = ground arith;
  frame = λ n o. ground (arith, o.0);
}
remove_first h start a (c ∷ ys) l =
    let h1 = write h a.at (node none none a.item) in
    let h2 = write h1 c.at (node none (first ys none) c.item) in
    let d = l.distinct in
    record {
      start' = some c.at;
      heap = h2;
      result = ground (arith, l.begins, l.chain.0, l.chain.1.0, d.0.0);
      remains = record {
        begins = refl;
        chain = (
          ground arith,
          Seg-write h1 c.at (node none (first ys none) c.item) (some c.at) ys none d.1.0
              (Seg-write h a.at (node none none a.item) (some c.at) ys none d.0.1 l.chain.1.1),
        );
        distinct = d.1;
      };
      isolated = ground (arith, d.0.0);
      frame = λ n o. ground (arith, o.0, o.1.0);
    }

-- The cell in front of `a`, seen from the whole list.
record IsInner (h : Heap) (zs : List Cell) (b a : Cell) (ys : List Cell) : Type 0 where
  before : Seg h none zs (some b.at)
  at_b : h b.at ≡ some (node (last none zs) (some a.at) b.item)
  at_a : h a.at ≡ some (node (some b.at) (first ys none) a.item)
  after : Seg h (some a.at) ys none
  b_zs : NotAt b.at zs
  a_zs : NotAt a.at zs
  b_a : b.at ≢ a.at
  a_ys : NotAt a.at ys
  b_ys : NotAt b.at ys
  ys_zs : Apart zs ys
  ys_ys : Distinct ys

inner :
    (h : Heap) (start : Option ℕ) (zs : List Cell) (b a : Cell) (ys : List Cell)
    → IsList h start (zs ++ b ∷ a ∷ ys)
    → IsInner h zs b a ys
inner h start zs b a ys l =
    let (s, t) = Seg-split h none zs (b ∷ a ∷ ys) none l.chain in
    let (d, e, f) = Distinct-split zs (b ∷ a ∷ ys) l.distinct in
    record {
      before = s;
      at_b = t.0;
      at_a = t.1.0;
      after = t.1.1;
      b_zs = f.0;
      a_zs = f.1.0;
      b_a = λ q. e.0.0 (sym q);
      a_ys = e.1.0;
      b_ys = e.0.1;
      ys_zs = f.1.1;
      ys_ys = e.1.1;
    }

remove_inner_end :
    (h : Heap) (zs : List Cell) (b a : Cell) (start : Option ℕ)
    → IsInner h zs b a []
    → same start a.at ≡ false
    → let h2 =
        write (write h b.at (node (last none zs) none b.item)) a.at (node none none a.item) in
      (remove_link h start a.at ≡ some (start, h2)) × Seg h2 none (zs ++ b ∷ []) none
unfolding remove_link
remove_inner_end h zs b a start i o =
    let h1 = write h b.at (node (last none zs) none b.item) in
    let h2 = write h1 a.at (node none none a.item) in
    (
      ground (arith, i.at_b, i.at_a, i.b_a),
      Seg-join h2 none zs (b ∷ []) none
          (Seg-write h1 a.at (node none none a.item) none zs (some b.at) i.a_zs (
            Seg-write h b.at (node (last none zs) none b.item) none zs (some b.at) i.b_zs i.before))
          (ground (arith, i.b_a), tt),
    )

remove_inner_next :
    (h : Heap) (zs : List Cell) (b a c : Cell) (ys : List Cell) (start : Option ℕ)
    → IsInner h zs b a (c ∷ ys)
    → same start a.at ≡ false
    → let h1 = write h b.at (node (last none zs) (some c.at) b.item) in
      let h2 = write h1 c.at (node (some b.at) (first ys none) c.item) in
      let h3 = write h2 a.at (node none none a.item) in
      (remove_link h start a.at ≡ some (start, h3)) × Seg h3 none (zs ++ b ∷ c ∷ ys) none
unfolding remove_link
remove_inner_next h zs b a c ys start i o =
    let nb = node (last none zs) (some c.at) b.item in
    let nc = node (some b.at) (first ys none) c.item in
    let na = node none none a.item in
    let h1 = write h b.at nb in
    let h2 = write h1 c.at nc in
    let h3 = write h2 a.at na in
    (
      ground (arith, i.at_b, i.at_a, i.after.0, i.b_a, i.a_ys.0, i.b_ys.0),
      Seg-join h3 none zs (b ∷ c ∷ ys) none
          (Seg-write h2 a.at na none zs (some b.at) i.a_zs (
            Seg-write h1 c.at nc none zs (some b.at) i.ys_zs.0
              (Seg-write h b.at nb none zs (some b.at) i.b_zs i.before)))
          (
            ground (arith, i.b_a, i.b_ys.0),
            (
              ground (arith, i.a_ys.0),
              Seg-write h2 a.at na (some c.at) ys none i.a_ys.1 (
                  Seg-write h1 c.at nc (some c.at) ys none i.ys_ys.0
                    (Seg-write h b.at nb (some c.at) ys none i.b_ys.1 i.after.1)),
            ),
          ),
    )

drop_after :
    (zs : List Cell) (b a : Cell) (ys : List Cell)
    → Distinct (zs ++ b ∷ a ∷ ys)
    → Distinct (zs ++ b ∷ ys)
drop_after [] b a ys d = (d.0.1, d.1.1)
drop_after (z ∷ zs) b a ys d = (NotAt-drop_after z.at zs b a ys d.0, drop_after zs b a ys d.1)

not_first :
    (h : Heap) (start : Option ℕ) (zs : List Cell) (b a : Cell) (ys : List Cell)
    → IsList h start (zs ++ b ∷ a ∷ ys)
    → IsInner h zs b a ys
    → (same start a.at ≡ false) × (start ≡ first (zs ++ b ∷ ys) none)
not_first h start [] b a ys l i = ground (arith, l.begins, i.b_a)
not_first h start (z ∷ zs) b a ys l i = ground (arith, l.begins, i.a_zs.0)

remove_inner :
    (h : Heap) (start : Option ℕ) (zs : List Cell) (b a : Cell) (ys : List Cell)
    → IsList h start (zs ++ b ∷ a ∷ ys)
    → (h' : Heap) × (remove_link h start a.at ≡ some (start, h'))
      × IsList h' start (zs ++ b ∷ ys)
      × (h' a.at ≡ some (node none none a.item))
      × ((n : ℕ) → NotAt n (zs ++ b ∷ a ∷ ys) → h' n ≡ h n)
remove_inner h start zs b a [] l =
    let i = inner h start zs b a [] l in
    let (o, f) = not_first h start zs b a [] l i in
    let (r, s) = remove_inner_end h zs b a start i o in
    (
      _,
      r,
      record { begins = f; chain = s; distinct = drop_after zs b a [] l.distinct },
      ground arith,
      λ n o. let p = (NotAt-split n zs (b ∷ a ∷ []) o).1 in ground (arith, p.0, p.1.0),
    )
remove_inner h start zs b a (c ∷ ys) l =
    let i = inner h start zs b a (c ∷ ys) l in
    let (o, f) = not_first h start zs b a (c ∷ ys) l i in
    let (r, s) = remove_inner_next h zs b a c ys start i o in
    (
      _,
      r,
      record { begins = f; chain = s; distinct = drop_after zs b a (c ∷ ys) l.distinct },
      ground arith,
      λ n o. let p = (NotAt-split n zs (b ∷ a ∷ c ∷ ys) o).1 in ground (arith, p.0, p.1.0, p.1.1.0),
    )

-- Taking out a link that stands in a list gives the list of the other links, in order and linked both
-- ways, whose first link is the result; the link that was taken out has no neighbours, no access goes
-- astray, and no address but those of the links of the list has another content than before.
pub remove_link-IsRemoval :
    (h : Heap) (start : Option ℕ) (xs : List Cell) (a : Cell) (ys : List Cell)
    → IsList h start (xs ++ a ∷ ys)
    → IsRemoval h start xs a ys
remove_link-IsRemoval h start xs a ys l = elim (last_cell xs) [
  | inl e ↦ rw e (remove_first h start a ys (rw e at l))
  | inr (zs, b, e) ↦
      let same_list : xs ++ a ∷ ys ≡ zs ++ b ∷ a ∷ ys =
        ap (λ k. k ++ a ∷ ys) e ∙ append_assoc zs (b ∷ []) (a ∷ ys) in
      let rest : xs ++ ys ≡ zs ++ b ∷ ys = ap (λ k. k ++ ys) e ∙ append_assoc zs (b ∷ []) ys in
      let (h', r, m, o, f) = remove_inner h start zs b a ys (rw same_list at l) in
      record {
        start' = start;
        heap = h';
        result = r;
        remains = rw rest m;
        isolated = o;
        frame = λ n k. f n (subst (NotAt n) same_list k);
      }
]
