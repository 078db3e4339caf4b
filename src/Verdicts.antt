-- ===== src/Verdicts.antt =====
-- api/src/verdict-consumer/verdict-consumer.service.ts: what a verdict of the review analyzer does.
-- The text of a message is parsed by a parameter, which stands for JSON.parse and the validation of
-- api/src/verdict-consumer/dto/verdict-computed-event.dto.ts (class-validator).
pub mod Stored
pub mod Pending
pub mod Advice
pub mod Stalled
use interview_insights.Prelude.{
  ℕ, String, Bool, not, true, false, Option, none, some, if◌then◌else◌, ◌==◌,
}
use interview_insights.Prisma.{Prisma}
use interview_insights.Schema.{
  EntityType, round_rating, recruiter_rating, overall_review, ai_triage_stalled, QueueEntry, Db,
}
use interview_insights.World.{
  World, Action, Result, ok, raised, record_not_found, pure, or_raise, gets, put_db, when, catching,
  ◌>>=◌, ◌>>◌,
}
use interview_insights.Moderation.Queue.{is_unreviewed_for}
use interview_insights.Moderation.Review.{ActionDto, AuditInput, flag, approve_with_audit}

-- TriageableEntityType
pub data Triageable : Type 0 where
  round_rating_verdict recruiter_rating_verdict overall_review_verdict : Triageable

-- VerdictComputedEvent: its eventType as `about`, and the id that goes with it.
pub record VerdictEvent : Type 0 where
  pub about : Triageable
  pub id : ℕ
  pub verdict : Option String
  pub auto_approval_eligible : Bool
  pub confidence : Option ℕ
  pub model : Option String
  pub prompt_content : Option String
  pub response_text : Option String
  pub stalled : Bool

unfoldable pub entity_type_for : Triageable → EntityType
entity_type_for round_rating_verdict = round_rating
entity_type_for recruiter_rating_verdict = recruiter_rating
entity_type_for overall_review_verdict = overall_review

abbrev pub auto_approval_system_actor : String
auto_approval_system_actor = "system:ai-auto-approval"

abbrev pub reconciliation_sweep_system_actor : String
reconciliation_sweep_system_actor = "system:ai-reconciliation-sweep"

-- `x ?? d`
abbrev pub or_else {ℓ} : {A : Type ℓ} → Option A → A → A
or_else none d = d
or_else (some a) d = a

-- An actor's dto with nothing else in it.
abbrev pub acts_as : String → ActionDto
acts_as actor = record {
  reviewed_by = some actor;
  rejection_reason_category = none;
  review_note = none;
}

-- The audit of an automatic approval. The empty object is the text `{}`.
unfoldable pub audit_of : VerdictEvent → AuditInput
audit_of event = record {
  entity_type = entity_type_for event.about;
  entity_id = event.id;
  prompt_content = or_else event.prompt_content "";
  response_text = or_else event.response_text "";
  verdict = or_else event.verdict "{}";
  confidence = or_else event.confidence 0;
  model = or_else event.model "";
}

module _ ⦃P : Prisma⦄ where
  unfoldable pub store_verdict : Triageable → ℕ → String → Action Unit
  store_verdict round_rating_verdict id verdict = do
    db ← gets (λ w. w.db)
    rows ←
        or_raise
          (P.update (λ r. r.id == id) (λ r. record r { moderation_verdict = some verdict })
            db.round_ratings)
          record_not_found
    put_db (record db { round_ratings = rows })
  store_verdict recruiter_rating_verdict id verdict = do
    db ← gets (λ w. w.db)
    rows ←
        or_raise
          (P.update (λ r. r.id == id) (λ r. record r { moderation_verdict = some verdict })
            db.recruiter_ratings)
          record_not_found
    put_db (record db { recruiter_ratings = rows })
  store_verdict overall_review_verdict id verdict = do
    db ← gets (λ w. w.db)
    rows ←
        or_raise
          (P.update (λ r. r.id == id) (λ r. record r { moderation_verdict = some verdict })
            db.overall_reviews)
          record_not_found
    put_db (record db { overall_reviews = rows })

  -- findFirst({ where: { entityType, entityId, reviewedAt: null }, orderBy: { createdAt: 'desc' } })
  abbrev pub pending_entry : EntityType → ℕ → World → Option QueueEntry
  pending_entry t id w = P.find_latest (is_unreviewed_for t id) (λ e. e.created_at) w.db.queue

  -- An escalated entry is left to an admin.
  unfoldable pub approve_found : VerdictEvent → Option QueueEntry → Action Unit
  approve_found event none = pure tt
  approve_found event (some entry) =
      when (not entry.escalated) do
        approve_with_audit entry.id (acts_as auto_approval_system_actor) (audit_of event)
        pure tt

  unfoldable pub auto_approve : VerdictEvent → Action Unit
  auto_approve event = do
    found ← gets (pending_entry (entity_type_for event.about) event.id)
    approve_found event found

  unfoldable pub flag_found : Option QueueEntry → Action Unit
  flag_found none = pure tt
  flag_found (some entry) = do
    flag entry.id (acts_as reconciliation_sweep_system_actor) (some ai_triage_stalled)
    pure tt

  unfoldable pub escalate_stalled : VerdictEvent → Action Unit
  escalate_stalled event = do
    found ← gets (pending_entry (entity_type_for event.about) event.id)
    flag_found found

  unfoldable pub apply_verdict : VerdictEvent → Action Unit
  apply_verdict event = do
    store_verdict event.about event.id (or_else event.verdict "{}")
    when event.auto_approval_eligible (auto_approve event)

  unfoldable pub process_event : VerdictEvent → Action Unit
  process_event event w = if event.stalled then escalate_stalled event w else apply_verdict event w

  -- handleMessage, on the value of a message.
  unfoldable pub handle_message : (String → Option VerdictEvent) → Option String → Action Unit
  handle_message parse none = pure tt
  handle_message parse (some value) = elim (parse value) [
    | none ↦ pure tt
    | some event ↦ catching (process_event event)
  ]
