-- ===== src/Lists/Links.antt =====
-- The links in memory do what the functions on lists of data say.
use belle_sip.Prelude.{
  ℕ, ◌≡◌, ◌≢◌, ◌∙◌, ap, refl, sym, Option, none, some, List, [], ◌∷◌, ◌++◌, arith,
}
use belle_sip.Lists.Nodes.{Node, node, Heap, write}

-- A link by its address and its data.
pub record Cell : Type 0 where
  pub at : ℕ
  pub item : ℕ

-- The address that follows the links before it, `n` if there are none; and the one before `n`.
abbrev pub first : List Cell → Option ℕ → Option ℕ
first [] n = n
first (c ∷ cs) n = some c.at

abbrev pub last : Option ℕ → List Cell → Option ℕ
last p [] = p
last p (c ∷ cs) = last (some c.at) cs

-- The cells are linked in this order, both ways, between `p` and `n`.
abbrev pub Seg : Heap → Option ℕ → List Cell → Option ℕ → Type 0
Seg h p [] n = Unit
Seg h p (c ∷ cs) n = (h c.at ≡ some (node p (first cs n) c.item)) × Seg h (some c.at) cs n

abbrev pub NotAt : ℕ → List Cell → Type 0
NotAt a [] = Unit
NotAt a (c ∷ cs) = (c.at ≢ a) × NotAt a cs

abbrev pub Distinct : List Cell → Type 0
Distinct [] = Unit
Distinct (c ∷ cs) = NotAt c.at cs × Distinct cs

abbrev pub Apart : List Cell → List Cell → Type 0
Apart xs [] = Unit
Apart xs (y ∷ ys) = NotAt y.at xs × Apart xs ys

pub first-append : (xs ys : List Cell) (n : Option ℕ) → first (xs ++ ys) n ≡ first xs (first ys n)
first-append [] ys n = refl
first-append (x ∷ xs) ys n = refl

pub Seg-split :
    (h : Heap) (p : Option ℕ) (xs ys : List Cell) (n : Option ℕ)
    → Seg h p (xs ++ ys) n
    → Seg h p xs (first ys n) × Seg h (last p xs) ys n
Seg-split h p [] ys n s = (tt, s)
Seg-split h p (x ∷ xs) ys n s =
    let (a, b) = Seg-split h (some x.at) xs ys n s.1 in
    ((s.0 ∙ ap (λ f. some (node p f x.item)) (first-append xs ys n), a), b)

pub Seg-join :
    (h : Heap) (p : Option ℕ) (xs ys : List Cell) (n : Option ℕ)
    → Seg h p xs (first ys n)
    → Seg h (last p xs) ys n
    → Seg h p (xs ++ ys) n
Seg-join h p [] ys n s t = t
Seg-join h p (x ∷ xs) ys n s t = (
  s.0 ∙ ap (λ f. some (node p f x.item)) (sym (first-append xs ys n)),
  Seg-join h (some x.at) xs ys n s.1 t,
)

pub Seg-write :
    (h : Heap) (a : ℕ) (m : Node) (p : Option ℕ) (xs : List Cell) (n : Option ℕ)
    → NotAt a xs
    → Seg h p xs n
    → Seg (write h a m) p xs n
Seg-write h a m p [] n o s = tt
Seg-write h a m p (x ∷ xs) n o s = (ground arith, Seg-write h a m (some x.at) xs n o.1 s.1)

pub NotAt-split : (a : ℕ) (xs ys : List Cell) → NotAt a (xs ++ ys) → NotAt a xs × NotAt a ys
NotAt-split a [] ys o = (tt, o)
NotAt-split a (x ∷ xs) ys o = let (l, r) = NotAt-split a xs ys o.1 in ((o.0, l), r)

Apart-cons : (x : Cell) (xs ys : List Cell) → NotAt x.at ys → Apart xs ys → Apart (x ∷ xs) ys
Apart-cons x xs [] o a = tt
Apart-cons x xs (y ∷ ys) o a = ((λ e. o.0 (sym e), a.0), Apart-cons x xs ys o.1 a.1)

Apart-nil : (ys : List Cell) → Apart [] ys
Apart-nil [] = tt
Apart-nil (y ∷ ys) = (tt, Apart-nil ys)

pub Distinct-split :
    (xs ys : List Cell) → Distinct (xs ++ ys) → Distinct xs × Distinct ys × Apart xs ys
Distinct-split [] ys d = (tt, d, Apart-nil ys)
Distinct-split (x ∷ xs) ys d =
    let (l, r) = NotAt-split x.at xs ys d.0 in
    let (a, b, c) = Distinct-split xs ys d.1 in ((l, a), b, Apart-cons x xs ys r c)

-- A whole list: its first link, and its cells in order.
pub record IsList (h : Heap) (start : Option ℕ) (cs : List Cell) : Type 0 where
  pub begins : start ≡ first cs none
  pub chain : Seg h none cs none
  pub distinct : Distinct cs
