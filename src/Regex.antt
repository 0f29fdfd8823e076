-- ===== src/Regex.antt =====
-- Regular expressions over words (netspeak/regex): queries, their builder and their parser.
pub mod Query
pub mod Lang
pub mod Builder
pub mod Parser
pub mod Utf8
pub mod Index
