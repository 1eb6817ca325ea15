-- ===== src/Stream.antt =====
-- streaming/stream_job.py: the routing of a micro-batch, the high-water mark and the whole of a batch.
pub mod Batch
pub mod Merge
pub mod Process
pub mod Schema
pub mod Run
pub mod Summary
mod Examples
