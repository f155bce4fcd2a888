-- ===== src/Rhs.antt =====
-- engine/src/rhs_types: the literals on the right of a comparison.
pub mod Int
pub mod Bytes
pub mod Utf8
pub mod External
pub mod Ip
pub mod ListName
pub mod Patterns
