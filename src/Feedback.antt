-- ===== src/Feedback.antt =====
-- include/tuner/Feedback.h and runtime/tuner/Feedback.cpp: the objects that time a version's calls. Time points
-- are whole nanoseconds; `none` as a result is a failed assertion or an exception.
pub mod Ring
pub mod Recent
pub mod Total
pub mod Object
mod Tests
use at_jit.Prelude.{
  ℕ, zero, suc, ◌+◌, ◌-◌, ◌%◌, ◌^◌, Bool, true, false, ◌&&◌, ◌||◌, Option, none, some, List, [],
  ◌∷◌, get_elem?, set, replicate, if◌then◌else◌, ◌==◌, leb, ltb,
}
use at_jit.Prelude.Int.{ℤ, pos, negsuc, sub_ℕ, pos_part, leb_ℤ}
use at_jit.Prelude.Double.{Double}
use at_jit.Prelude.Partial.{◌>>=◌, ◌>>◌, assert}

-- (end - start).count()
abbrev pub elapsed : ℕ → ℕ → ℤ
elapsed start end = sub_ℕ end start

abbrev pub is_positive : ℤ → Bool
is_positive t = leb_ℤ (pos 1) t

abbrev pub default_min_trials : ℕ
default_min_trials = 2

-- The members of RecentFeedbackBuffer
pub record Buffer : Type 0 where
  pub cur : ℕ
  pub observations : ℕ
  pub deployed_time : ℕ
  pub start_buf : List ℕ
  pub end_buf : List ℕ
  pub buf_sz : ℕ

pub new_buffer : ℕ → Buffer
new_buffer n = record {
  cur = 0;
  observations = 0;
  deployed_time = 0;
  start_buf = replicate n 0;
  end_buf = replicate n 0;
  buf_sz = n;
}

-- RecentFeedbackBuffer::endMeasurement, called at the time `end`
pub end_measurement : ℕ → ℕ → Buffer → Option Buffer
end_measurement start end b =
    assert (is_positive (elapsed start end))
    >> some (record b {
      start_buf = set b.start_buf b.cur start;
      end_buf = set b.end_buf b.cur end;
      cur = (b.cur + 1) % b.buf_sz;
      observations = (b.observations + 1) % 2 ^ 64;
      deployed_time = (b.deployed_time + pos_part (elapsed start end)) % 2 ^ 64;
    })

-- The loop that adds the first n times of the buffers. Its checks are those of a debug build.
pub total_time : ℕ → List ℕ → List ℕ → ℕ → Option ℕ
total_time zero starts ends total = some total
total_time (suc n) (s ∷ starts) (e ∷ ends) total =
    assert (is_positive (elapsed s e))
    >> (assert (ltb (pos_part (elapsed s e)) (2 ^ 63 - 1 - total))
        >> total_time n starts ends (total + pos_part (elapsed s e)))
total_time (suc n) _ _ total = none

-- The new deployed time, with the overflow check.
abbrev pub add_time : ℕ → ℕ → ℕ
add_time old t = let new = (old + t) % 2 ^ 64 in if ltb new old then 2 ^ 64 - 1 else new

module _ (dbl : Double) where
  open dbl use {D, lit, neg_lit, of_int, add, sub, mul, div, sqrt, pow, le, lt, trunc, max_value}

  abbrev pub of_nat : ℕ → D
  of_nat n = of_int (pos n)

  -- The loop that adds up the squares; the sum is an int64_t.
  pub sum_sq_diff : ℕ → List ℕ → List ℕ → D → ℤ → ℤ
  sum_sq_diff zero starts ends avg sum = sum
  sum_sq_diff (suc n) (s ∷ starts) (e ∷ ends) avg sum =
      sum_sq_diff n starts ends avg
        (trunc (add (of_int sum) (pow (sub (of_int (elapsed s e)) avg) 2)))
  sum_sq_diff (suc n) _ _ avg sum = sum

  pub record Statistics : Type 0 where
    pub average : D
    pub sample_variance : D
    pub std_err : D

  -- calculateBasicStatistics
  pub calculate_basic_statistics : List ℕ → List ℕ → ℕ → Option Statistics
  calculate_basic_statistics starts ends sz = do
    assert (ltb 0 sz)
    total ← total_time sz starts ends 0
    let avg = div (of_nat total) (of_nat sz)
    let variance = div (of_int (sum_sq_diff sz starts ends avg (pos 0))) (of_nat (sz - 1))
    some (
        if sz == 1
        then record { average = avg; sample_variance = lit 0 0; std_err = lit 0 0 }
        else record {
          average = avg;
          sample_variance = variance;
          std_err = div (sqrt variance) (sqrt (of_nat sz));
        })

  -- The members of RecentExecutionTime
  pub record RecentExecutionTime : Type 0 where
    pub buffer : Buffer
    pub last_calc : ℕ
    pub err_pct_threshold : D
    pub sample_sz : ℕ
    pub stats : Statistics

  pub new_recent : D → RecentExecutionTime
  new_recent bound = record {
    buffer = new_buffer 32;
    last_calc = 0;
    err_pct_threshold = bound;
    sample_sz = 0;
    stats = record { average = max_value; sample_variance = lit 0 0; std_err = lit 0 0 };
  }

  -- RecentExecutionTime::updateStats
  pub update_recent : RecentExecutionTime → Option RecentExecutionTime
  update_recent r =
      if r.last_calc == r.buffer.observations
      then some r
      else (let sz =
            if leb r.buffer.buf_sz r.buffer.observations
            then r.buffer.buf_sz
            else r.buffer.observations in
          calculate_basic_statistics r.buffer.start_buf r.buffer.end_buf sz >>= λ st.
          some (record r { last_calc = r.buffer.observations; sample_sz = sz; stats = st }))

  -- RecentExecutionTime::goodQuality
  pub good_recent : RecentExecutionTime → Bool
  good_recent r =
      ltb default_min_trials r.last_calc
      && le (mul (lit 100 0) (div r.stats.std_err r.stats.average)) r.err_pct_threshold

  -- The members of TotalExecutionTime; the fields from `is_good` on are the cached answers.
  pub record TotalExecutionTime : Type 0 where
    pub deployed_time : ℕ
    pub ignores_error : Bool
    pub average : D
    pub sample_variance : D
    pub std_dev : D
    pub std_error : D
    pub std_error_pct : D
    pub sum_sq : D
    pub err_bound : D
    pub data_points : ℕ
    pub is_good : Bool
    pub mean : D
    pub variance : D
    pub sample_size : ℕ

  unfoldable pub new_total : D → TotalExecutionTime
  new_total bound = record {
    deployed_time = 0;
    ignores_error = lt bound (lit 0 0);
    average = lit 0 0;
    sample_variance = lit 0 0;
    std_dev = lit 0 0;
    std_error = lit 0 0;
    std_error_pct = lit 0 0;
    sum_sq = lit 0 0;
    err_bound = bound;
    data_points = 0;
    is_good = false;
    mean = max_value;
    variance = lit 0 0;
    sample_size = 0;
  }

  -- The formulas of TotalExecutionTime::endMeasurement from the second data point on
  pub update_moments : D → D → TotalExecutionTime → TotalExecutionTime
  update_moments time n t =
      let new_avg = div (add time (mul (sub n (lit 1 0)) t.average)) n in
      let sum = add t.sum_sq (mul (sub time t.average) (sub time new_avg)) in
      let dev = sqrt (div sum (sub n (lit 15 1))) in
      let err = div dev (sqrt n) in
      record t {
        sum_sq = sum;
        sample_variance = div sum (sub n (lit 1 0));
        std_dev = dev;
        std_error = err;
        std_error_pct = mul (div err new_avg) (lit 100 0);
        average = new_avg;
      }

  -- TotalExecutionTime::endMeasurement, called at the time `end`
  pub end_total : ℕ → ℕ → TotalExecutionTime → Option TotalExecutionTime
  end_total start end t = do
    assert (is_positive (elapsed start end))
    let time = pos_part (elapsed start end)
    let points = (t.data_points + 1) % 2 ^ 64
    let counted = record t { deployed_time = add_time t.deployed_time time; data_points = points }
    some (
        if points == 1
        then record counted { average = of_nat time }
        else update_moments (of_nat time) (of_nat points) counted)

  -- TotalExecutionTime::updateStats
  unfoldable pub update_total : TotalExecutionTime → TotalExecutionTime
  update_total t = record t {
    is_good =
        (ltb default_min_trials t.data_points && le t.std_error_pct t.err_bound)
        || (leb 1 t.data_points && lt t.err_bound (lit 0 0));
    mean = t.average;
    variance = t.sample_variance;
    sample_size = t.data_points;
  }
