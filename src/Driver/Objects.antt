-- ===== src/Driver/Objects.antt =====
-- The feedback objects of runtime/tuner/Feedback.cpp as what the driver uses of them.
use at_jit.Prelude.Double.{Double}
use at_jit.Driver.Interfaces.{FeedbackOps}
use at_jit.Feedback.Object.{
  Object, update_stats, good_quality, deployed_time, reset_deployed_time, better,
}

abbrev pub object_ops : Double → FeedbackOps
object_ops dbl = record {
  F = Object dbl;
  update_stats = update_stats dbl;
  good_quality = good_quality dbl;
  deployed_time = deployed_time dbl;
  reset_deployed_time = reset_deployed_time dbl;
  better = better dbl;
}
