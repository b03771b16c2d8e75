-- ===== src/Utilities.antt =====
-- The text utilities of nav3d_util.
pub mod Strings
pub mod Arrays
pub mod LineIterator
pub mod OdomSmoother
mod Examples
