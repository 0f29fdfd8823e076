-- ===== src/Util.antt =====
-- The helpers of netspeak/util that the normalizer is built on.
pub mod Math
pub mod Permutation
pub mod ChainCutter
pub mod Vec
pub mod PropertiesFormat
pub mod LfuCache
