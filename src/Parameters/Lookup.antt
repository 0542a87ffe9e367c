-- ===== src/Parameters/Lookup.antt =====
-- The parameters are a finite map, and the list of their names is in step with them.
use belle_sip.Prelude.{
  ℕ, ◌≡◌, ◌∙◌, refl, sym, ap, inl, inr, true, false, Option, none, some, List, [], ◌∷◌, map,
  if◌then◌else◌, Bool-cases, Option-cases, zero, suc, arith, String, same_string, Reach, here, next,
}
use belle_sip.Lists.Values.{append, find_custom, delete_custom}
use belle_sip.Lists.Keyed.{
  named, Fresh, DistinctKeys, find-Fresh, Fresh-find, Fresh-same, find-delete_other, delete-Fresh,
  find-append_other, find-append_same, DistinctKeys-delete, DistinctKeys-append,
}
use belle_sip.Parameters.Defs.{
  Pair, pair, pair_name, Parameters, itself, clean, set_parameter, remove_parameter, copy_pairs,
  copy_parameters_from, get_parameter_base, get_parameter, has_parameter, parse_one, before, after,
  parse, next_param, set,
}

pub map-delete :
    (n : String) (l : List Pair)
    → map pair_name (delete_custom (named pair_name n) l)
      ≡ delete_custom (named itself n) (map pair_name l)
unfolding delete_custom
map-delete n [] = refl
map-delete n (x ∷ l) = elim (Bool-cases (same_string x.name n)) [
  | inl h ↦ rw h refl
  | inr h ↦ rw h (ap (◌∷◌ x.name) (map-delete n l))
]

pub map-append :
    (l : List Pair) (x : Pair) → map pair_name (append l x) ≡ append (map pair_name l) x.name
unfolding append
map-append [] x = refl
map-append (y ∷ l) x = ap (◌∷◌ y.name) (map-append l x)

-- A name is in one list as it is in the other.
Fresh-map : (n : String) (l : List Pair) → Fresh itself n (map pair_name l) → Fresh pair_name n l
Fresh-map n [] f = tt
Fresh-map n (x ∷ l) f = (f.0, Fresh-map n l f.1)

pub record IsWf (p : Parameters) : Type 0 where
  pub in_step : p.paramnames_list ≡ map pair_name p.param_list
  pub distinct : DistinctKeys pair_name p.param_list

clean-IsWf : (p : Parameters) → IsWf (clean p)
unfolding clean
clean-IsWf p = record { in_step = refl; distinct = tt }

pub set_parameter-IsWf :
    (n : String) (v : Option String) (p : Parameters) → IsWf p → IsWf (set_parameter n v p)
unfolding set_parameter
set_parameter-IsWf n v p w =
    let l = delete_custom (named pair_name n) p.param_list in
    record {
      in_step =
          ap (λ names. append (delete_custom (named itself n) names) n) w.in_step
          ∙ ap (λ names. append names n) (sym (map-delete n p.param_list))
          ∙ sym (map-append l (pair n v));
      distinct =
          DistinctKeys-append pair_name l (pair n v)
            (DistinctKeys-delete pair_name n p.param_list w.distinct)
            (delete-Fresh pair_name n p.param_list w.distinct);
    }

remove_parameter-IsWf : (n : String) (p : Parameters) → IsWf p → IsWf (remove_parameter n p)
unfolding remove_parameter
remove_parameter-IsWf n p w = elim (Option-cases (find_custom (named itself n) p.paramnames_list)) [
  | inl e ↦ rw (e, remove_parameter) w
  | inr (m, e) ↦
      rw (e, remove_parameter)
        (record {
          in_step = ap (delete_custom (named itself n)) w.in_step ∙ sym (map-delete n p.param_list);
          distinct = DistinctKeys-delete pair_name n p.param_list w.distinct;
        })
]

copy_pairs-IsWf : (l : List Pair) (p : Parameters) → IsWf p → IsWf (copy_pairs l p)
unfolding copy_pairs
copy_pairs-IsWf [] p w = w
copy_pairs-IsWf (x ∷ l) p w =
    copy_pairs-IsWf l (set_parameter x.name x.value p) (set_parameter-IsWf x.name x.value p w)

parse-IsWf : (fuel : ℕ) (s : String) (p q : Parameters) → IsWf p → parse fuel s p ≡ some q → IsWf q
unfolding parse parse_one
parse-IsWf zero s p q w e = absurd (ground arith)
parse-IsWf (suc k) s p q w e =
    let p' = parse_one (before b';' s) p in
    let w' = set_parameter-IsWf (before b'=' (before b';' s)) (after b'=' (before b';' s)) p w in
    ended (next_param s) (parse k (next_param s) p') p' q w' (parse-IsWf k (next_param s) p' q w') e
  where
    ended :
        (rest : String) (r : Option Parameters) (p' q : Parameters)
        → IsWf p'
        → (r ≡ some q → IsWf q)
        → (elim rest as (λ x. Option Parameters) [ [] ↦ some p' | x ∷ s ↦ r ]) ≡ some q
        → IsWf q
    ended [] r p' q w f e = (let k : p' ≡ q = ground arith in rw (← k) w)
    ended (x ∷ s) r p' q w f e = f e

set-IsWf : (fuel : ℕ) (s : Option String) (p q : Parameters) → set fuel s p ≡ some q → IsWf q
unfolding set
set-IsWf fuel none p q e = (let k : clean p ≡ q = ground arith in rw (← k) (clean-IsWf p))
set-IsWf fuel (some []) p q e = (let k : clean p ≡ q = ground arith in rw (← k) (clean-IsWf p))
set-IsWf fuel (some (x ∷ s)) p q e = parse-IsWf fuel (x ∷ s) (clean p) q (clean-IsWf p) e

pub data Step : Parameters → Parameters → Type 0 where
  put : (p : Parameters) (n : String) (v : Option String) → Step p (set_parameter n v p)
  take_out : (p : Parameters) (n : String) → Step p (remove_parameter n p)
  copy_from : (p orig : Parameters) → Step p (copy_parameters_from orig p)
  empty : (p : Parameters) → Step p (clean p)
  set_all : (p q : Parameters) (fuel : ℕ) (s : Option String) → set fuel s p ≡ some q → Step p q

abbrev pub no_parameters : Parameters
no_parameters = record { param_list = []; paramnames_list = [] }

Step-IsWf : (p q : Parameters) → Step p q → IsWf p → IsWf q
unfolding copy_parameters_from
Step-IsWf p _ (put _ n v) w = set_parameter-IsWf n v p w
Step-IsWf p _ (take_out _ n) w = remove_parameter-IsWf n p w
Step-IsWf p _ (copy_from _ orig) w = copy_pairs-IsWf orig.param_list p w
Step-IsWf p _ (empty _) w = clean-IsWf p
Step-IsWf p q (set_all _ _ fuel s e) w = set-IsWf fuel s p q e

-- Whatever is set, removed, copied, parsed or cleaned, the list of names is that of the parameters, in
-- their order, and no name is there twice.
pub parameters_invariant : (p : Parameters) → Reach Step no_parameters p → IsWf p
parameters_invariant _ here = record { in_step = refl; distinct = tt }
parameters_invariant q (next {t} r s) = Step-IsWf t q s (parameters_invariant t r)

find-set_parameter :
    (m n : String) (v : Option String) (p : Parameters)
    → IsWf p
    → find_custom (named pair_name n) (set_parameter m v p).param_list
      ≡ (if same_string m n then some (pair m v) else find_custom (named pair_name n) p.param_list)
unfolding set_parameter
find-set_parameter m n v p w =
    let l = delete_custom (named pair_name m) p.param_list in
    elim (Bool-cases (same_string m n)) [
      | inl h ↦ rw h (
          find-append_same pair_name n l (pair m v)
            (Fresh-same pair_name m n l h (delete-Fresh pair_name m p.param_list w.distinct)) h)
      | inr h ↦ rw h (
          find-append_other pair_name n l (pair m v) h
          ∙ find-delete_other pair_name m n p.param_list h)
    ]

find-remove_parameter :
    (m n : String) (p : Parameters)
    → IsWf p
    → find_custom (named pair_name n) (remove_parameter m p).param_list
      ≡ (if same_string m n then none else find_custom (named pair_name n) p.param_list)
unfolding remove_parameter
find-remove_parameter m n p w =
    elim (Option-cases (find_custom (named itself m) p.paramnames_list)) [
      | inl e ↦
          let fresh = Fresh-find itself m (map pair_name p.param_list) (rw (w.in_step) at e) in
          elim (Bool-cases (same_string m n)) [
            | inl h ↦
                rw (e, h, remove_parameter)
                  (find-Fresh pair_name n p.param_list
                    (Fresh-same pair_name m n p.param_list h (Fresh-map m p.param_list fresh)))
            | inr h ↦ rw (e, h, remove_parameter) refl
          ]
      | inr (x, e) ↦
          let l = delete_custom (named pair_name m) p.param_list in
          elim (Bool-cases (same_string m n)) [
            | inl h ↦
                rw (e, h, remove_parameter)
                  (find-Fresh pair_name n l (
                    Fresh-same pair_name m n l h
                      (delete-Fresh pair_name m p.param_list w.distinct)))
            | inr h ↦ rw (e, h, remove_parameter) (find-delete_other pair_name m n p.param_list h)
          ]
    ]

-- In parameters of which the invariant holds, a value that is set is what is got under its name until
-- it is removed, and neither changes what is got, or if there is a parameter, under another name.
pub parameters_map :
    (m n : String) (v : Option String) (p : Parameters)
    → IsWf p
    → (get_parameter n (set_parameter m v p) ≡ (if same_string m n then v else get_parameter n p))
      × (has_parameter n (set_parameter m v p)
          ≡ (if same_string m n then true else has_parameter n p))
      × (get_parameter n (remove_parameter m p)
          ≡ (if same_string m n then none else get_parameter n p))
      × (has_parameter n (remove_parameter m p)
          ≡ (if same_string m n then false else has_parameter n p))
unfolding get_parameter get_parameter_base has_parameter
parameters_map m n v p w =
    let a = find-set_parameter m n v p w in
    let b = find-remove_parameter m n p w in
    elim (Bool-cases (same_string m n)) [
      | inl h ↦ rw (a, b, has_parameter, h) (refl, refl, refl, refl)
      | inr h ↦ rw (a, b, has_parameter, h) (refl, refl, refl, refl)
    ]
