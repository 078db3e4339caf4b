-- ===== src/Schema.antt =====
-- The rows of the moderation tables (api/prisma/schema.prisma) as the services of api/src read and
-- write them: the enums, one record for each model, and the database as one list of rows a table.
mod Enums
mod Tables
pub use Enums.*
pub use Tables.*
