-- ===== src/Feedback/Total.antt =====
-- TotalExecutionTime: the deployed time saturates, and quality needs enough data points.
use at_jit.Prelude.{
  ℕ, ◌+◌, ◌-◌, ◌%◌, ◌^◌, ◌<◌, ◌≤◌, Bool, true, ◌&&◌, ◌||◌, Option, some, List, [], ◌∷◌, length,
  if◌then◌else◌, leb, ltb, ◌==◌, ◌≡◌, refl, sym, ap, ◌∙◌, arith, ◌⊎◌, All,
}
use at_jit.Prelude.Int.{pos_part}
use at_jit.Prelude.Double.{Double}
use at_jit.Prelude.Partial.{◌>>=◌, Succeeds, >>=-Succeeds, Succeeds-mono, if-elim}
use at_jit.Feedback.{
  elapsed, is_positive, TotalExecutionTime, new_total, add_time, update_moments, end_total,
  update_total,
}

-- The sum of all times of a history.
abbrev pub sum_all : List (ℕ × ℕ) → ℕ
sum_all [] = 0
sum_all ((s, e) ∷ hs) = (e - s) + sum_all hs

-- A sum that stops at the largest uint64_t.
abbrev pub saturated : ℕ → ℕ
saturated n = if leb n (2 ^ 64 - 1) then n else 2 ^ 64 - 1

add_time_lem : (n t : ℕ) → t < 2 ^ 63 → add_time (saturated n) t ≡ saturated (t + n)
add_time_lem n t h = ground arith

needs_flags :
    (n : ℕ) (small ignore : Bool)
    → ((ltb 2 n && small) || (leb 1 n && ignore)) ≡ true
    → (3 ≤ n) ⊎ ((1 ≤ n) × (ignore ≡ true))
needs_flags n small ignore e = ground arith

-- A measurement whose time is a positive int64_t.
abbrev pub Timed : ℕ × ℕ → Type 0
Timed (s, e) = (s < e) × (e - s < 2 ^ 63)

module _ (dbl : Double) where
  open dbl use {D, le, lt, lit}

  -- What the object is after the measurements of a list, the latest first.
  unfoldable pub total_after : D → List (ℕ × ℕ) → Option (TotalExecutionTime dbl)
  total_after bound [] = some (new_total dbl bound)
  total_after bound ((s, e) ∷ older) = total_after bound older >>= end_total dbl s e

  -- The two counters of the object, and the bound it was made with.
  abbrev pub Counts : D → List (ℕ × ℕ) → TotalExecutionTime dbl → Type 0
  Counts bound hs t =
      (t.deployed_time ≡ saturated (sum_all hs))
      × (t.data_points ≡ length hs % 2 ^ 64)
      × (t.err_bound ≡ bound)

  update_moments-Counts :
      (bound time n : D) (hs : List (ℕ × ℕ)) (t : TotalExecutionTime dbl)
      → Counts bound hs t
      → Counts bound hs (update_moments dbl time n t)
  unfolding update_moments
  update_moments-Counts bound time n hs t c = c

  needs :
      (bound : D) (hs : List (ℕ × ℕ)) (t : TotalExecutionTime dbl)
      → length hs < 2 ^ 64
      → t.data_points ≡ length hs % 2 ^ 64
      → t.err_bound ≡ bound
      → (update_total dbl t).is_good ≡ true
      → (3 ≤ length hs) ⊎ ((1 ≤ length hs) × (lt bound (lit 0 0) ≡ true))
  unfolding update_total
  needs bound hs t few points same good =
      let count : t.data_points ≡ length hs = omega (arith, points, few) in
      needs_flags (length hs) (le t.std_error_pct t.err_bound) (lt bound (lit 0 0))
        (rw (sym same, sym count) good)

  end_total-Counts :
      (bound : D) (hs : List (ℕ × ℕ)) (s e : ℕ) (t : TotalExecutionTime dbl)
      → s < e
      → e - s < 2 ^ 63
      → Counts bound hs t
      → Succeeds (Counts bound ((s, e) ∷ hs)) (end_total dbl s e t)
  unfolding end_total
  end_total-Counts bound hs s e t before small (deployed, points, same) =
      let positive : is_positive (elapsed s e) ≡ true = ground arith in
      let time : pos_part (elapsed s e) ≡ e - s = ground arith in
      let counted : Counts bound ((s, e) ∷ hs) (record t {
        deployed_time = add_time t.deployed_time (e - s);
        data_points = (t.data_points + 1) % 2 ^ 64;
      }) =
        (
          ap (λ d. add_time d (e - s)) deployed ∙ add_time_lem (sum_all hs) (e - s) small,
          omega (arith, points),
          same,
        ) in
      rw (positive, time)
        (if-elim (Counts bound ((s, e) ∷ hs)) ((t.data_points + 1) % 2 ^ 64 == 1) _ _ counted
          (update_moments-Counts bound _ _ ((s, e) ∷ hs) _ counted))

  total_after-Counts :
      (bound : D) (hs : List (ℕ × ℕ))
      → All Timed hs
      → Succeeds (Counts bound hs) (total_after bound hs)
  unfolding new_total total_after
  total_after-Counts bound [] p = (refl, refl, refl)
  total_after-Counts bound ((s, e) ∷ hs) ((before, small), p) =
      >>=-Succeeds _ (total_after bound hs) _ (total_after-Counts bound hs p)
        λ t c. end_total-Counts bound hs s e t before small c

  -- After any measurements that each took between 1 and 2^63 - 1 nanoseconds, the deployed time is their sum,
  -- or the largest uint64_t where the sum is larger: it never wraps around.
  pub deployed_time_saturates :
      (bound : D) (hs : List (ℕ × ℕ))
      → All Timed hs
      → Succeeds (λ t. t.deployed_time ≡ saturated (sum_all hs)) (total_after bound hs)
  deployed_time_saturates bound hs p =
      Succeeds-mono _ _ (total_after bound hs) (λ t c. c.0) (total_after-Counts bound hs p)

  -- After fewer than 2^64 measurements of such lengths, updateStats finds the statistics good only
  -- after 3 of them, or after one where the bound on the error is negative.
  pub update_total-good :
      (bound : D) (hs : List (ℕ × ℕ))
      → All Timed hs
      → length hs < 2 ^ 64
      → Succeeds
          (λ t.
            (update_total dbl t).is_good ≡ true
            → (3 ≤ length hs) ⊎ ((1 ≤ length hs) × (lt bound (lit 0 0) ≡ true)))
          (total_after bound hs)
  update_total-good bound hs p few =
      Succeeds-mono _ _ (total_after bound hs)
        (λ t (deployed, points, same) good. needs bound hs t few points same good)
        (total_after-Counts bound hs p)
