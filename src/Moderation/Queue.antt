-- ===== src/Moderation/Queue.antt =====
-- moderation.service.ts: enqueue, reenqueue, removeQueueEntries and computeSlaDeadline, and
-- moderation-sla.env.ts.
pub mod Resubmission
use interview_insights.Prelude.{
  ℕ, ◌+◌, ◌*◌, zero, suc, Bool, true, false, not, ◌&&◌, Option, none, some, is_some, leb, ◌==◌,
}
use interview_insights.Prisma.{Prisma}
use interview_insights.Schema.{EntityType, FlagReason, QueueEntry, Db, same_type}
use interview_insights.World.{
  World, SlaEnv, Action, error, ok, pure, raise, gets, put_db, draw_id, ◌>>=◌, ◌>>◌, unset, empty,
  invalid, hours,
}

-- LIFETIME_RESUBMISSION_CAP
abbrev pub lifetime_resubmission_cap : ℕ
lifetime_resubmission_cap = 3

-- where: { entityType, entityId }
abbrev pub is_for : EntityType → ℕ → QueueEntry → Bool
is_for t entity_id e = same_type e.entity_type t && e.entity_id == entity_id

-- where: { reviewedAt: null }
abbrev pub is_unreviewed : QueueEntry → Bool
is_unreviewed e = not (is_some e.reviewed_at)

-- where: { entityType, entityId, reviewedAt: null }
abbrev pub is_unreviewed_for : EntityType → ℕ → QueueEntry → Bool
is_unreviewed_for t entity_id e = is_for t entity_id e && is_unreviewed e

-- where: { id }
abbrev pub has_id : ℕ → QueueEntry → Bool
has_id id e = e.id == id

-- A zero is not positive, so it is refused like any other text that is no positive number.
unfoldable pub sla_hours_of : SlaEnv → Action ℕ
sla_hours_of unset = pure 48
sla_hours_of empty = pure 48
sla_hours_of invalid = raise (error "MODERATION_SLA_HOURS must be a positive number")
sla_hours_of (hours zero) = raise (error "MODERATION_SLA_HOURS must be a positive number")
sla_hours_of (hours (suc n)) = pure (suc n)

unfoldable pub get_moderation_sla_hours : Action ℕ
unfolding sla_hours_of
get_moderation_sla_hours = do env ← gets (λ w. w.sla_env); sla_hours_of env

unfoldable pub compute_sla_deadline : Action ℕ
unfolding get_moderation_sla_hours
compute_sla_deadline = do
  h ← get_moderation_sla_hours
  now ← gets (λ w. w.now)
  pure (now + h * 60 * 60 * 1000)

-- The row that `create` makes of its data: every column that is not given has the schema's default.
abbrev pub new_entry : ℕ → EntityType → ℕ → Option FlagReason → ℕ → Bool → ℕ → QueueEntry
new_entry id t entity_id flag_reason deadline escalated now = record {
  id = id;
  entity_type = t;
  entity_id = entity_id;
  flag_reason = flag_reason;
  reviewed_by = none;
  reviewed_at = none;
  decision = none;
  rejection_reason_category = none;
  review_note = none;
  escalated = escalated;
  sla_deadline = deadline;
  claimed_by_id = none;
  claimed_at = none;
  breach_notified_at = none;
  warning_notified_at = none;
  created_at = now;
}

module _ ⦃P : Prisma⦄ where
  unfoldable pub create_entry : EntityType → ℕ → Option FlagReason → ℕ → Bool → Action QueueEntry
  create_entry t entity_id flag_reason deadline escalated = do
    id ← draw_id
    now ← gets (λ w. w.now)
    db ← gets (λ w. w.db)
    let entry = new_entry id t entity_id flag_reason deadline escalated now
    put_db (record db { queue = P.create entry db.queue })
    pure entry

  unfoldable pub enqueue : EntityType → ℕ → Option FlagReason → Action QueueEntry
  enqueue t entity_id flag_reason = do
    deadline ← compute_sla_deadline
    create_entry t entity_id flag_reason deadline false

  unfoldable pub reenqueue : EntityType → ℕ → Action QueueEntry
  reenqueue t entity_id = do
    db ← gets (λ w. w.db)
    put_db (record db { queue = P.delete_many (is_unreviewed_for t entity_id) db.queue })
    prior_submission_count ← gets (λ w. P.count (is_for t entity_id) w.db.queue)
    let escalated = leb lifetime_resubmission_cap prior_submission_count
    deadline ← compute_sla_deadline
    create_entry t entity_id none deadline escalated

  unfoldable pub remove_queue_entries : EntityType → ℕ → Action Unit
  remove_queue_entries t entity_id = do
    db ← gets (λ w. w.db)
    put_db (record db { queue = P.delete_many (is_for t entity_id) db.queue })
