-- ===== src/Moderation/Review/Escalated.antt =====
-- A review leaves the entries with other ids alone.
use interview_insights.Prelude.{
  ℕ, ◌≡◌, Bool, false, ◌&&◌, Option, some, keep, change, first, All, All-mono, All-of_count,
  IsKeyed, count-zero_of_first, keep-change, keep-drop, arith,
}
use interview_insights.Prisma.{Prisma}
use interview_insights.Schema.{FlagReason, QueueEntry}
use interview_insights.World.{World}
use interview_insights.Moderation.Queue.{has_id}
use interview_insights.Moderation.Entities.{queue-with_status}
use interview_insights.Moderation.Review.{
  Decision, ActionDto, AuditInput, is_open, review_row, review, entity_status,
}
use interview_insights.Moderation.Review.Outcomes.{committed, queue-audited, decided_queue}
use interview_insights.Moderation.Entities.{with_status}
use interview_insights.Moderation.Review.Refinement.{review_outcome, review_spec}

module _ ⦃P : Prisma⦄ (id : ℕ) (d : Decision) (dto : ActionDto) (fr : Option FlagReason)
    (audit : Option AuditInput) (q : QueueEntry → Bool) where
  queue-committed :
      (e : QueueEntry) (w : World)
      → (committed id d dto fr audit e w).queue
        ≡ change (is_open id) (review_row d dto fr w.now) w.db.queue
  queue-committed e w = ground (
    arith,
    queue-audited id audit (
        with_status e.entity_type e.entity_id (entity_status d e.escalated)
          (decided_queue id d dto fr w.now w.db)),
    queue-with_status e.entity_type e.entity_id (entity_status d e.escalated)
        (decided_queue id d dto fr w.now w.db),
  )

  keep-spec :
      (w : World) (e : QueueEntry)
      → ((now : ℕ) (x : QueueEntry) → q (review_row d dto fr now x) ≡ q x)
      → All (λ x. (has_id id x && q x) ≡ false) w.db.queue
      → keep q (review_spec id d dto fr audit w (some e)).1.queue ≡ keep q w.db.queue
  keep-spec w e h a = ground (
    arith,
    queue-committed e w,
    keep-drop q (has_id id) w.db.queue a,
    keep-change q (is_open id) (review_row d dto fr w.now) w.db.queue (h w.now)
        (All-mono (λ x. (has_id id x && q x) ≡ false) w.db.queue (λ x k. ground arith) a),
  )

  -- A test of the rows that no review affects and that the entry fails keeps the rows that pass.
  pub keep-review :
      (w : World) (e : QueueEntry)
      → IsKeyed (λ e. e.id) w.db.queue
      → first (has_id id) w.db.queue ≡ some e
      → ((now : ℕ) (x : QueueEntry) → q (review_row d dto fr now x) ≡ q x)
      → q e ≡ false
      → keep q (review id d dto fr audit w).1.db.queue ≡ keep q w.db.queue
  keep-review w e u s h n = ground (
    arith,
    review_outcome id d dto fr audit w,
    keep-spec w e h (
        All-of_count (λ x. has_id id x && q x) w.db.queue
          (count-zero_of_first (λ (e : QueueEntry). e.id) id (λ x. has_id id x && q x) w.db.queue e
            u (λ x k. ground arith) s (ground arith))),
  )
