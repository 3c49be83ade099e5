-- ===== src/Tests.antt =====
-- Runs of the model on concrete data.
mod Fixtures
mod Formats
mod Maps
mod Commits
mod Undoing
mod Files
mod Reopening
mod Ranges
mod Threads
mod Workers
