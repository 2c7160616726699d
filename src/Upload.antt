-- ===== src/Upload.antt =====
-- app/core/archive_resumable_worker.py and what it stands on: the upload of a large annual file to
-- Drive in chunks, and its promotion.
pub mod Remote
pub mod Act
pub mod Session
pub mod Record
pub mod Promote
pub mod Finish
pub mod Chunk
pub mod Step
pub mod Worker
pub mod Logic
pub mod Sound
pub mod Stages
pub mod Requests
pub mod Endings
pub mod Commits
pub mod Finishes
pub mod Chunks
pub mod Steps
pub mod Safety
pub mod Verified
pub mod Once
pub mod Agrees
