-- ===== src/Loop/Waiting.antt =====
-- How long the main loop waits.
use belle_sip.Prelude.{
  ℕ, ◌+◌, ◌-◌, ◌^◌, ◌<◌, ◌≤◌, ◌≡◌, ◌∙◌, ap, refl, min, inl, inr, Option, none, some, Option-cases,
  List, [], ◌∷◌, ◌++◌, arith,
}
use belle_sip.Loop.Sources.{Source}
use belle_sip.Loop.Iterate.{deadline, min_time, poll_duration}

min_time-le : (m : ℕ) (ss : List Source) → (k : ℕ) × (min_time (some m) ss ≡ some k) × (k ≤ m)
unfolding min_time
min_time-le m [] = (m, refl, omega arith)
min_time-le m (s ∷ ss) = elim (Option-cases (deadline s)) [
  | inl never ↦ rw never (min_time-le m ss)
  | inr (e, q) ↦ rw q (let (k, a, b) = min_time-le (min m e) ss in (k, a, omega arith))
]

min_time-le_deadline :
    (o : Option ℕ) (xs : List Source) (s : Source) (ys : List Source) (e : ℕ)
    → deadline s ≡ some e
    → (k : ℕ) × (min_time o (xs ++ s ∷ ys) ≡ some k) × (k ≤ e)
unfolding min_time
min_time-le_deadline none [] s ys e h = rw (h, min_time) (min_time-le e ys)
min_time-le_deadline (some m) [] s ys e h =
    rw (h, min_time) (let (k, a, b) = min_time-le (min m e) ys in (k, a, omega arith))
min_time-le_deadline none (x ∷ xs) s ys e h = elim (Option-cases (deadline x)) [
  | inl never ↦ rw (never, min_time) (min_time-le_deadline none xs s ys e h)
  | inr (f, q) ↦ rw (q, min_time) (min_time-le_deadline (some f) xs s ys e h)
]
min_time-le_deadline (some m) (x ∷ xs) s ys e h = elim (Option-cases (deadline x)) [
  | inl never ↦ rw (never, min_time) (min_time-le_deadline (some m) xs s ys e h)
  | inr (f, q) ↦ rw (q, min_time) (min_time-le_deadline (some (min m f)) xs s ys e h)
]

duration_short :
    (k e cur : ℕ)
    → k ≤ e
    → e < cur + 2 ^ 31
    → (d : ℕ) × (poll_duration (some k) cur ≡ some d) × (d ≤ e - cur)
unfolding poll_duration
duration_short k e cur h b = (k - cur, ground arith, omega arith)

-- The loop never sleeps past the time at which a live source expires, if that is less than 2 ^ 31 ms
-- ahead: poll is given a duration, and it ends then at the latest.
pub poll_duration-le_deadline :
    (xs : List Source) (s : Source) (ys : List Source) (e cur : ℕ)
    → deadline s ≡ some e
    → e < cur + 2 ^ 31
    → (d : ℕ) × (poll_duration (min_time none (xs ++ s ∷ ys)) cur ≡ some d) × (d ≤ e - cur)
poll_duration-le_deadline xs s ys e cur h b =
    let (k, q, l) = min_time-le_deadline none xs s ys e h in
    let (d, p, m) = duration_short k e cur l b in (d, ap (λ o. poll_duration o cur) q ∙ p, m)
