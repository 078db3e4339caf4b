-- ===== src/Verdicts/Pending.antt =====
-- The pending entry that an event is about.
use interview_insights.Prelude.{
  ℕ, ◌≡◌, subst, true, false, some, is_some, first, IsKeyed, IsLatest, eq_of_==, first_of_IsRow,
  arith,
}
use interview_insights.Prisma.{Prisma}
use interview_insights.Schema.{EntityType, QueueEntry, eq_of_same_type}
use interview_insights.World.{World}
use interview_insights.Moderation.Queue.{has_id, is_unreviewed_for}
use interview_insights.Verdicts.{pending_entry}

kind_of :
    (e : QueueEntry) (t : EntityType) (id : ℕ)
    → is_unreviewed_for t id e ≡ true
    → (e.entity_type ≡ t) × (e.entity_id ≡ id) × (is_some e.reviewed_at ≡ false)
kind_of e t id h = (
  eq_of_same_type e.entity_type t (ground arith),
  eq_of_== e.entity_id id (ground arith),
  ground arith,
)

module _ ⦃P : Prisma⦄ (t : EntityType) (id : ℕ) (w : World) (entry : QueueEntry) where
  -- The pending entry of a review is a row of the queue, about the review, and unreviewed.
  pub pending-first :
      pending_entry t id w ≡ some entry
      → IsKeyed (λ e. e.id) w.db.queue
      → (first (has_id entry.id) w.db.queue ≡ some entry)
        × (entry.entity_type ≡ t)
        × (entry.entity_id ≡ id)
        × (is_some entry.reviewed_at ≡ false)
  pending-first p u = (
    first_of_IsRow (λ (e : QueueEntry). e.id) w.db.queue entry u found.1,
    (kind_of entry t id found.0).0,
    (kind_of entry t id found.0).1,
    (kind_of entry t id found.0).2,
  )
    where
      found : IsLatest (is_unreviewed_for t id) (λ e. e.created_at) w.db.queue (some entry)
      found =
          subst (IsLatest (is_unreviewed_for t id) (λ e. e.created_at) w.db.queue) p (
            P.find_latest_law (is_unreviewed_for t id) (λ (e : QueueEntry). e.created_at)
              w.db.queue)
