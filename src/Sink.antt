-- ===== src/Sink.antt =====
-- streaming/cassandra_sink.py: rows of the stream become statements, which are written with retries.
pub mod Tables
pub mod Statements
pub mod Ring
pub mod Partition
mod Examples
