-- ===== src/Bayes.antt =====
-- include/tuner/BayesianTuner.h: the tuner that learns from the measurements. Each child models one of its
-- stages: the columns of the data set, its rows, the training loop, the batch, and the proposals.
pub mod Columns
pub mod Batch
pub mod Learn
pub mod Dataset
pub mod Propose
mod Tests
