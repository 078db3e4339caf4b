-- ===== src/Moderation/Schedule.antt =====
-- Calls that run at the same time. What the database executes in one piece is an atom: the gated
-- write of a claim, of a release or of a decision (after a read that may be stale: the entry that a
-- decision was taken on is any entry), the writes of the other paths in their transactions, and any
-- write to the other tables. A schedule is a list of atoms, whoever issues them.
pub mod Atoms
pub mod Claimed
pub mod Shrinking
pub mod Issued
pub mod Once
use interview_insights.Prelude.{ℕ, Bool, Option, none, some, List, [], ◌∷◌, ◌++◌}
use interview_insights.Prisma.{Prisma}
use interview_insights.Schema.{EntityType, FlagReason, QueueEntry, Db}
use interview_insights.World.{World, Result, ok, raised, Action, transaction}
use interview_insights.Moderation.Queue.{enqueue, reenqueue, remove_queue_entries}
use interview_insights.Moderation.Claims.{claim_write, release_write}
use interview_insights.Moderation.Review.{
  Decision, ActionDto, AuditInput, review_commit, delete_entry,
}

pub data Atom : Type 0 where
  claims releases : ℕ → ℕ → Atom
  commits : QueueEntry → ℕ → Decision → ActionDto → Option FlagReason → Option AuditInput → Atom
  enqueues : EntityType → ℕ → Option FlagReason → Atom
  reenqueues : EntityType → ℕ → Atom
  removes : EntityType → ℕ → Atom
  drops_orphan : ℕ → Atom
  elsewhere : (Db → Db) → Atom
  passes : ℕ → Atom

module _ ⦃P : Prisma⦄ where
  unfoldable pub step : Atom → World → World
  step (claims id m) w = (claim_write id m w).1
  step (releases id m) w = (release_write id m w).1
  step (commits entry id d dto fr audit) w = (review_commit entry id d dto fr audit w).1
  step (enqueues t entity_id fr) w = (transaction (enqueue t entity_id fr) w).1
  step (reenqueues t entity_id) w = (transaction (reenqueue t entity_id) w).1
  step (removes t entity_id) w = (remove_queue_entries t entity_id w).1
  step (drops_orphan id) w = (delete_entry id w).1
  step (elsewhere f) w = record w { db = record (f w.db) { queue = w.db.queue } }
  step (passes t) w = record w { now = t }

  unfoldable pub run : List Atom → World → World
  run [] w = w
  run (a ∷ rest) w = run rest (step a w)

  -- The entries that an atom decides: the one of a decision that commits.
  unfoldable pub answered : ℕ → Result QueueEntry → List ℕ
  answered id (ok e) = id ∷ []
  answered id (raised f) = []

  unfoldable pub decided_by : Atom → World → List ℕ
  unfolding answered
  decided_by (commits entry id d dto fr audit) w =
      answered id (review_commit entry id d dto fr audit w).0
  decided_by _ w = []

  -- The entries that a schedule decides, in order.
  unfoldable pub decided : List Atom → World → List ℕ
  decided [] w = []
  decided (a ∷ rest) w = decided_by a w ++ decided rest (step a w)
