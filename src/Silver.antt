-- ===== src/Silver.antt =====
-- spark_jobs/silver: the batches of the open-interest table, the recording of a batch's quality, and
-- the choice of the offsets that a trigger reads. Spark's aggregation is outside.
pub mod OpenInterest
pub mod Retried
pub mod Quality
pub mod Offsets
pub mod Price
pub mod Priced
pub mod Plans
pub mod Guarded
pub mod Jobs
pub mod Checkpoints
pub mod Distinct
pub mod Waiting
pub mod Recorded
mod Runs
mod Prices
mod Examples
