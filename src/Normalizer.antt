-- ===== src/Normalizer.antt =====
-- netspeak/QueryNormalizer.cpp: from a query to its norm queries.
pub mod StarQuery
pub mod StarConverter
pub mod Expansion
pub mod Optimizer
pub mod Counter
pub mod Regexes
pub mod Simplifier
pub mod Normalize
