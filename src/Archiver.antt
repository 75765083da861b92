-- ===== src/Archiver.antt =====
-- services/audit-archiver/src: the job that creates the monthly partitions of the audit log and moves
-- the old ones to cold storage.
pub mod Partition
pub mod Names
pub mod Lock
pub mod Pipeline
mod Tests
