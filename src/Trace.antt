-- ===== src/Trace.antt =====
-- crates/acp-trace: the on-disk format of a recorded session, its writer and its reader.
pub mod Event
pub mod Disk
pub mod Writer
pub mod Reader
pub mod Session
pub mod Integrity
pub mod Stored
pub mod Clock
