-- ===== src/Moderation.antt =====
-- api/src/moderation/moderation.service.ts, by method.
pub mod Queue
pub mod Claims
pub mod Lookups
pub mod Publishing
pub mod Indexing
pub mod Review
pub mod Entities
pub mod Schedule
