-- ===== src/Gate/Edits.antt =====
-- The edits of submissions keep the gate.
pub mod RoundRatings
pub mod RecruiterRatings
pub mod OverallReviews
pub mod Companies
