-- ===== src/Retry.antt =====
-- common/retry.py: the retry loop, its backoff schedule and its accounting.
pub mod Stats
pub mod Policy
pub mod Call
pub mod Batches
mod Examples
