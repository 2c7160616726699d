-- ===== src/Queue.antt =====
-- app/core/archive_queue.py: the durable queue of weekly finance archive jobs, and
-- app/core/archive_finalize_telemetry.py, whose telemetry a job carries.
pub mod Telemetry
pub mod State
pub mod Waiting
pub mod Discover
pub mod Download
pub mod Finalize
pub mod Status
pub mod Worker
