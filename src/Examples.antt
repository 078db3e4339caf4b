-- ===== src/Examples.antt =====
-- Concrete worlds, and the theorems applied to them.
mod World0
mod Moderation0
mod Services0
mod Accounts0
mod Submissions0
mod Gate0
mod Candidates0
mod Notices0
mod Public0
