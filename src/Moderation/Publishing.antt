-- ===== src/Moderation/Publishing.antt =====
-- api/src/events/domain-event-publisher.ts, `publish`, and the methods of moderation.service.ts that
-- publish: publishCreatedEvent, publishStatusChangedEvent, publishSlaResolvedEvent.
pub mod Sent
use interview_insights.Prelude.{ℕ, String, Option, none, some, is_some, sub_ℕ}
use interview_insights.Prisma.{Prisma}
use interview_insights.Schema.{
  EntityType, round_rating, recruiter_rating, overall_review, company, Status, pending,
  RejectionReason, QueueEntry,
}
use interview_insights.World.Calls.{
  Event, CreatedEvent, StatusChange, send, round_rating_created, recruiter_rating_created,
  overall_review_created, company_created, round_rating_status_changed,
  recruiter_rating_status_changed, overall_review_status_changed, company_status_changed,
  sla_resolved,
}
use interview_insights.World.{
  Action, record_not_found, pure, or_raise, gets, request, catching, when, ◌>>=◌,
}
use interview_insights.Moderation.Lookups.{
  round_rating_row, recruiter_rating_row, overall_review_row, company_row, process_of,
  process_of_round, process_of_interaction,
}

-- With no connection the event is dropped; a failure to send it is caught.
unfoldable pub publish : Event → ℕ → Action Unit
publish event key = do
  connected ← gets (λ w. w.connected)
  when connected (catching (request (send event key)))

module _ ⦃P : Prisma⦄ where
  abbrev created_event : ℕ → ℕ → ℕ → ℕ → ℕ → Option ℕ → CreatedEvent
  created_event now id parent candidate company_id resubmission = record {
    occurred_at = now;
    entity_id = id;
    parent_id = parent;
    candidate_id = candidate;
    company_id = company_id;
    status = pending;
    is_resubmission = is_some resubmission;
    moderation_queue_entry_id = resubmission;
  }

  -- A company with no requester has nobody to notify.
  unfoldable pub publish_company_created : ℕ → Option ℕ → Action Unit
  publish_company_created id none = pure tt
  publish_company_created id (some candidate) = do
    now ← gets (λ w. w.now)
    publish (company_created now id candidate pending) id

  unfoldable pub created_event_of : EntityType → ℕ → Option ℕ → Action Unit
  created_event_of round_rating entity_id resubmission = do
    now ← gets (λ w. w.now)
    found ← gets (round_rating_row entity_id)
    r ← or_raise found record_not_found
    process ← process_of_round r.round_id
    publish
        (round_rating_created
          (created_event now r.id r.round_id r.candidate_id process.company_id resubmission))
        r.id
  created_event_of recruiter_rating entity_id resubmission = do
    now ← gets (λ w. w.now)
    found ← gets (recruiter_rating_row entity_id)
    r ← or_raise found record_not_found
    process ← process_of_interaction r.recruiter_interaction_id
    publish
        (recruiter_rating_created (
          created_event now r.id r.recruiter_interaction_id r.candidate_id process.company_id
            resubmission))
        r.id
  created_event_of overall_review entity_id resubmission = do
    now ← gets (λ w. w.now)
    found ← gets (overall_review_row entity_id)
    r ← or_raise found record_not_found
    process ← process_of r.process_id
    publish
        (overall_review_created
          (created_event now r.id r.process_id r.candidate_id process.company_id resubmission))
        r.id
  created_event_of company entity_id resubmission = do
    found ← gets (company_row entity_id)
    c ← or_raise found record_not_found
    publish_company_created c.id c.candidate_id

  unfoldable pub publish_created_event : EntityType → ℕ → Option ℕ → Action Unit
  publish_created_event t entity_id resubmission =
      catching (created_event_of t entity_id resubmission)

  unfoldable pub publish_company_status : ℕ → StatusChange → Option ℕ → Action Unit
  publish_company_status id change none = pure tt
  publish_company_status id change (some candidate) =
      publish (company_status_changed id candidate change) id

  unfoldable pub status_changed_event_of : EntityType → ℕ → StatusChange → Action Unit
  status_changed_event_of round_rating entity_id change = do
    found ← gets (round_rating_row entity_id)
    r ← or_raise found record_not_found
    process ← process_of_round r.round_id
    publish (round_rating_status_changed r.id r.round_id r.candidate_id process.company_id change)
        r.id
  status_changed_event_of recruiter_rating entity_id change = do
    found ← gets (recruiter_rating_row entity_id)
    r ← or_raise found record_not_found
    process ← process_of_interaction r.recruiter_interaction_id
    publish
        (recruiter_rating_status_changed r.id r.recruiter_interaction_id r.candidate_id
          process.company_id change)
        r.id
  status_changed_event_of overall_review entity_id change = do
    found ← gets (overall_review_row entity_id)
    r ← or_raise found record_not_found
    process ← process_of r.process_id
    publish
        (overall_review_status_changed r.id r.process_id r.candidate_id process.company_id change)
        r.id
  status_changed_event_of company entity_id change = do
    found ← gets (company_row entity_id)
    c ← or_raise found record_not_found
    publish_company_status c.id change c.candidate_id

  unfoldable pub publish_status_changed_event :
      EntityType
      → ℕ
      → Status
      → Option String
      → ℕ
      → Option RejectionReason
      → Option String
      → Action Unit
  publish_status_changed_event t entity_id new_status reviewed_by entry_id reason note = do
    now ← gets (λ w. w.now)
    catching (
        status_changed_event_of t entity_id (record {
          occurred_at = now;
          previous_status = pending;
          new_status = new_status;
          reviewed_by = reviewed_by;
          moderation_queue_entry_id = entry_id;
          rejection_reason_category = reason;
          review_note = note;
        }))

-- The latency is negative for an entry that is resolved before its deadline.
unfoldable pub publish_sla_resolved_event : QueueEntry → Status → Option String → ℕ → Action Unit
publish_sla_resolved_event entry decision reviewed_by entry_id = do
  now ← gets (λ w. w.now)
  publish
      (sla_resolved (record {
        occurred_at = now;
        queue_entry_id = entry_id;
        entity_type = entry.entity_type;
        entity_id = entry.entity_id;
        decision = decision;
        reviewed_by = reviewed_by;
        was_breached = is_some entry.breach_notified_at;
        was_warned = is_some entry.warning_notified_at;
        resolution_latency_ms = sub_ℕ now entry.sla_deadline;
      }))
      entry_id
