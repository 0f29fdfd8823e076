-- ===== src/Samples.antt =====
-- Sample queries, and the theorems and functions at them.
pub mod Data
pub mod Models
pub mod Chains
pub mod Conversions
pub mod Passes
pub mod Regexes
pub mod Index
pub mod Cache
pub mod Simple
