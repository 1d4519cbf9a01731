-- ===== src/Io.antt =====
-- The I/O layer (foxxll/io).
pub mod DiskQueue
