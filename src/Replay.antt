-- ===== src/Replay.antt =====
-- replay/dlq_tools.py: the drain of the dead letter queue.
pub mod Drain
pub mod Inspect
mod Examples
