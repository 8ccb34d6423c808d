-- ===== src/Feedback/Tests.antt =====
-- Tests of the feedback objects.
use at_jit.Prelude.{ℕ, ◌*◌, ◌/◌, some, List, [], ◌∷◌, ◌≡◌, refl, arith}
use at_jit.Prelude.Fixed.{fixed}
use at_jit.Prelude.Partial.{Succeeds}
use at_jit.Feedback.Ring.{record_all, record_all-IsRing, IsRing}
use at_jit.Feedback.Recent.{update_recent_lem}
use at_jit.Feedback.Total.{total_after, deployed_time_saturates}
use at_jit.Feedback.Object.{total, update_stats}
use at_jit.Feedback.{
  Buffer, new_buffer, end_measurement, RecentExecutionTime, TotalExecutionTime, new_recent,
  new_total, update_recent, update_total,
}

-- The latest measurement took 5 nanoseconds, the one before it 3.
abbrev two_calls : List (ℕ × ℕ)
two_calls = (20, 25) ∷ (10, 13) ∷ []

abbrev two_buffer : Buffer
two_buffer = record (new_buffer 32) {
  cur = 2;
  observations = 2;
  deployed_time = 8;
  start_buf = 10 ∷ 20 ∷ zeros;
  end_buf = 13 ∷ 25 ∷ zeros;
}
  where
    zeros : List ℕ
    zeros =
        0 ∷ 0 ∷ 0 ∷ 0 ∷ 0 ∷ 0 ∷ 0 ∷ 0 ∷ 0 ∷ 0 ∷ 0 ∷ 0 ∷ 0 ∷ 0 ∷ 0 ∷ 0 ∷ 0 ∷ 0 ∷ 0 ∷ 0 ∷ 0 ∷ 0 ∷ 0
        ∷ 0 ∷ 0 ∷ 0 ∷ 0 ∷ 0 ∷ 0 ∷ 0 ∷ []

two_recorded : record_all two_calls ≡ some two_buffer
unfolding record_all new_buffer end_measurement
two_recorded = refl

abbrev two_recent : RecentExecutionTime fixed
two_recent = record (new_recent fixed 10000) { buffer = two_buffer }

record_all-IsRing_example : Succeeds (IsRing two_calls) (record_all two_calls)
record_all-IsRing_example = record_all-IsRing two_calls (omega arith, (omega arith, tt))

update_recent_lem_example :
    Succeeds
      (λ r'. (r'.stats.average ≡ 8 * 1000 * 1000 / 2000) × (r'.sample_sz ≡ 2) × (r'.last_calc ≡ 2))
      (update_recent fixed two_recent)
unfolding new_recent
update_recent_lem_example =
    update_recent_lem fixed two_calls two_recent (omega arith, (omega arith, tt)) two_recorded
      (omega arith) (omega arith) (omega arith) (omega arith)

deployed_time_saturates_example :
    Succeeds (λ t. t.deployed_time ≡ 8) (total_after fixed 10000 two_calls)
deployed_time_saturates_example =
    deployed_time_saturates fixed 10000 two_calls
      ((omega arith, omega arith), ((omega arith, omega arith), tt))

abbrev timed : TotalExecutionTime fixed
timed = record (new_total fixed 10000) { average = 4000; data_points = 2 }

timed_updated : update_stats fixed (total timed) ≡ some (total (update_total fixed timed))
unfolding update_stats
timed_updated = refl
