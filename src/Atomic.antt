-- ===== src/Atomic.antt =====
-- cmd/go-openssl/code/atomic.go: batches of files that are replaced together or not at all.
pub mod Host
pub mod Stage
pub mod Commit
pub mod Keeps
pub mod View
pub mod Restored
pub mod Matching
pub mod Undone
pub mod Abandoned
pub mod Staged
pub mod Batch
pub mod Replaced
pub mod Originals
pub mod AllOrNothing
pub mod Tests
