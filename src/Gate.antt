-- ===== src/Gate.antt =====
-- The moderation gate over all the services that write to it: a submission that is pending is in the
-- queue, and one that is not pending is not waiting there.
pub mod Rules
pub mod Statuses
pub mod Steps
pub mod Closings
pub mod Fresh
pub mod Inserts
pub mod Best
pub mod Edits
pub mod Companies
pub mod Removals
pub mod Decisions
pub mod Claims
pub mod Services
pub mod Stored
pub mod Verdicts
pub mod Structure
pub mod Bulk
pub mod Requests
pub mod Reviewed
pub mod Settled
use interview_insights.Prelude.{
  ℕ, Bool, true, false, ◌≡◌, Option, none, some, is_some, List, count_where, contains, All, IsKeyed,
  if◌then◌else◌,
}
use interview_insights.Schema.{EntityType, Status, pending, same_status, QueueEntry, Db}
use interview_insights.World.{World}
use interview_insights.Moderation.Queue.{is_unreviewed_for}
use interview_insights.Moderation.Entities.{status_of}

abbrev pub is_pending : Option Status → Bool
is_pending none = false
is_pending (some s) = same_status s pending

-- The tables, with the ids that have been given out: the ids of the queue are distinct; they and
-- those of the submissions have been given out; a submission has exactly one unreviewed entry where
-- it is pending, and none where it is not or does not exist; a process has at most one review.
pub record IsGated (db : Db) (issued : List ℕ) : Type 0 where
  pub keyed : IsKeyed (λ e. e.id) db.queue
  pub entries : All (λ e. contains e.id issued ≡ true) db.queue
  pub entities :
      (t : EntityType) (id : ℕ) → is_some (status_of t id db) ≡ true → contains id issued ≡ true
  pub gate :
      (t : EntityType) (id : ℕ)
      → count_where (is_unreviewed_for t id) db.queue
        ≡ (if is_pending (status_of t id db) then 1 else 0)
  pub reviews : IsKeyed (λ r. r.id) db.overall_reviews
  pub processes : IsKeyed (λ r. r.process_id) db.overall_reviews

-- Ids that have been given out stay given out.
abbrev pub Grows : List ℕ → List ℕ → Type 0
Grows issued issued' = (id : ℕ) → contains id issued ≡ true → contains id issued' ≡ true
