-- ===== src/Feedback/Object.antt =====
-- include/tuner/Feedback.h and runtime/tuner/Feedback.cpp: the classes under Feedback as one type, what the driver
-- reads of them, createFeedback and the test of betterThan.
use at_jit.Prelude.{
  ℕ, ◌-◌, ◌^◌, Bool, false, Option, none, some, ◌≡◌, refl, subst, arith, some-injective,
}
use at_jit.Prelude.Double.{Double}
use at_jit.Prelude.Partial.{◌>>=◌}
use at_jit.Context.{FeedbackKind, fb_none, fb_total, fb_total_ignore_error, fb_recent}
use at_jit.Feedback.Recent.{update_recent_again}
use at_jit.Feedback.{
  RecentExecutionTime, TotalExecutionTime, new_recent, new_total, update_recent, update_total,
  good_recent, end_measurement, end_total, of_nat,
}

module _ (dbl : Double) where
  open dbl use {D, lit, neg_lit, add, sub, mul, div, sqrt, le, max_value}

  pub data Object : Type 0 where
    noop : Object
    recent : RecentExecutionTime dbl → Object
    total : TotalExecutionTime dbl → Object

  -- The call that has no preference.
  abbrev create_requested : FeedbackKind → Option Object
  create_requested fb_none = some noop
  create_requested fb_total = some (total (new_total dbl (lit 100 1)))
  create_requested fb_total_ignore_error = some (total (new_total dbl (neg_lit 1 0)))
  create_requested fb_recent = some (recent (new_recent dbl (lit 100 1)))
  create_requested _ = none

  -- createFeedback; `none` is its runtime_error
  unfoldable pub create_feedback : FeedbackKind → Option FeedbackKind → Option Object
  create_feedback fb_none (some preferred) = create_requested preferred
  create_feedback requested _ = create_requested requested

  pub end_object : ℕ → ℕ → Object → Option Object
  end_object start end noop = some noop
  end_object start end (recent r) = do
    b ← end_measurement start end r.buffer
    some (recent (record r { buffer = b }))
  end_object start end (total t) = do t' ← end_total dbl start end t; some (total t')

  unfoldable pub update_stats : Object → Option Object
  update_stats noop = some noop
  update_stats (recent r) = do r' ← update_recent dbl r; some (recent r')
  update_stats (total t) = some (total (update_total dbl t))

  pub good_quality : Object → Bool
  good_quality noop = false
  good_quality (recent r) = good_recent dbl r
  good_quality (total t) = t.is_good

  unfoldable pub expected_value : Object → D
  expected_value noop = max_value
  expected_value (recent r) = r.stats.average
  expected_value (total t) = t.mean

  pub variance : Object → D
  variance noop = lit 0 0
  variance (recent r) = r.stats.sample_variance
  variance (total t) = t.variance

  pub sample_size : Object → ℕ
  sample_size noop = 0
  sample_size (recent r) = r.sample_sz
  sample_size (total t) = t.sample_size

  pub deployed_time : Object → ℕ
  deployed_time noop = 2 ^ 64 - 1
  deployed_time (recent r) = r.buffer.deployed_time
  deployed_time (total t) = t.deployed_time

  pub reset_deployed_time : Object → Object
  reset_deployed_time noop = noop
  reset_deployed_time (recent r) =
      recent (record r { buffer = record r.buffer { deployed_time = 0 } })
  reset_deployed_time (total t) = total (record t { deployed_time = 0 })

  -- The test of betterThan, on objects that are up to date: Welch's statistic against the threshold.
  pub better : Object → Object → Bool
  better mine other =
      let my_scaled = div (variance mine) (of_nat dbl (sample_size mine)) in
      let o_scaled = div (variance other) (of_nat dbl (sample_size other)) in
      let delta = mul (lit 2 2) (expected_value other) in
      let statistic =
        div (sub (sub (expected_value other) (expected_value mine)) delta)
          (sqrt (add o_scaled my_scaled)) in
      le (lit 1943 3) statistic

  -- betterThan: both objects are brought up to date first.
  pub better_than : Object → Object → Option (Bool × Object × Object)
  better_than mine other = do
    mine' ← update_stats mine
    other' ← update_stats other
    some (better mine' other', mine', other')

  again_recent :
      (r : RecentExecutionTime dbl) (m : Option (RecentExecutionTime dbl)) (o' : Object)
      → update_recent dbl r ≡ m
      → (m >>= λ r'. some (recent r')) ≡ some o'
      → update_stats o' ≡ some o'
  unfolding update_stats
  again_recent r none o' m e = ground arith
  again_recent r (some r') o' m e =
      subst (λ o. update_stats o ≡ some o) (some-injective e)
        (rw (update_recent_again dbl r r' m) refl)

  -- Once updateStats has succeeded, another call before the next measurement changes nothing.
  pub update_stats_again : (o o' : Object) → update_stats o ≡ some o' → update_stats o' ≡ some o'
  unfolding update_stats update_total
  update_stats_again noop o' e = subst (λ o. update_stats o ≡ some o) (some-injective e) refl
  update_stats_again (recent r) o' e = again_recent r (update_recent dbl r) o' refl e
  update_stats_again (total t) o' e = subst (λ o. update_stats o ≡ some o) (some-injective e) refl
