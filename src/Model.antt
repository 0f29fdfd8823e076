-- ===== src/Model.antt =====
-- The data model of netspeak/model: ranges of lengths, queries, simple queries and norm queries.
pub mod LengthRange
pub mod NormQuery
pub mod Query
pub mod SimpleQuery
