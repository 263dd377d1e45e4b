-- ===== src/Minilibc.antt =====
-- src/vita/common/minilibc.c and strcasecmp.c: the C library that is linked into the Vita modules.
-- A routine that scans for a zero byte takes fuel, and `none` says that the fuel ran out; the fuel
-- bounds the bytes scanned, and the theorems say how much is enough.
pub mod Block
pub mod Strings
pub mod Token
pub mod Format
