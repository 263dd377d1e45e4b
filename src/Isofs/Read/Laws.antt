-- ===== src/Isofs/Read/Laws.antt =====
-- What the reads of an ISO file return.
pub mod Returns
pub mod Slices
pub mod Exact
pub mod Bytes
