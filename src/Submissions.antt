-- ===== src/Submissions.antt =====
-- The services that candidates submit to.
pub mod Quiet
pub mod Inserts
pub mod RoundRatings
pub mod RecruiterRatings
pub mod OverallReviews
pub mod Companies
pub mod RoundTypes
pub mod Processes
pub mod Bulk
pub mod Public
