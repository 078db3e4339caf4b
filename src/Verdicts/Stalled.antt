-- ===== src/Verdicts/Stalled.antt =====
-- What the report that a review was never analyzed does.
use interview_insights.Prisma.{Prisma}
use interview_insights.World.{World}
