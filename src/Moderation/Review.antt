-- ===== src/Moderation/Review.antt =====
-- moderation.service.ts: review, and approve, reject, flag and approveWithAudit, which call it.
pub mod Outcomes
pub mod BestEffort
pub mod Decisions
pub mod Refinement
pub mod Escalated
use interview_insights.Prelude.{
  ℕ, zero, String, Bool, true, false, not, ◌&&◌, ◌||◌, Option, none, some, is_some, ◌==◌,
  if◌then◌else◌,
}
use interview_insights.Prisma.{Prisma}
use interview_insights.Schema.{
  EntityType, round_rating, recruiter_rating, overall_review, company, Status, approved, rejected,
  flagged, permanently_rejected, FlagReason, RejectionReason, QueueEntry, AiAutoApprovalAudit, Db,
  same_type,
}
use interview_insights.World.{
  World, Action, Result, ok, raised, Failure, not_found, bad_request, record_not_found, pure, raise,
  raise_if, or_raise, gets, put_db, when, transaction, ◌>>=◌, ◌>>◌,
}
use interview_insights.Moderation.Queue.{has_id, is_unreviewed}
use interview_insights.Moderation.Claims.{find_entry, already_reviewed}
use interview_insights.Moderation.Lookups.{entity_exists}
use interview_insights.Moderation.Publishing.{
  publish_status_changed_event, publish_sla_resolved_event,
}
use interview_insights.Moderation.Indexing.{
  remove_from_search_index, index_approved_review, index_approved_company, refresh_analytics_view,
}

-- ModerationDecision
pub data Decision : Type 0 where
  decided_approved decided_rejected decided_flagged : Decision

abbrev pub to_status : Decision → Status
to_status decided_approved = approved
to_status decided_rejected = rejected
to_status decided_flagged = flagged

-- decision === 'approved'
abbrev pub is_approved : Decision → Bool
is_approved decided_approved = true
is_approved _ = false

-- ModerationActionDto
pub record ActionDto : Type 0 where
  pub reviewed_by : Option String
  pub rejection_reason_category : Option RejectionReason
  pub review_note : Option String

-- AiAutoApprovalAuditInput
pub record AuditInput : Type 0 where
  pub entity_type : EntityType
  pub entity_id : ℕ
  pub prompt_content : String
  pub response_text : String
  pub verdict : String
  pub confidence : ℕ
  pub model : String

-- A column whose value in `data` is undefined keeps its old value.
abbrev pub or_keep {ℓ} : {A : Type ℓ} → Option A → Option A → Option A
or_keep none old = old
or_keep (some v) old = some v

-- `entityStatus`: an admin's rejection of an escalated entry is final.
unfoldable pub entity_status : Decision → Bool → Status
entity_status decided_rejected true = permanently_rejected
entity_status d escalated = to_status d

abbrev pub orphaned : Failure
orphaned =
    not_found
      "This item's underlying record no longer exists. The stale queue entry has been removed."

-- where: { id, reviewedAt: null }
abbrev pub is_open : ℕ → QueueEntry → Bool
is_open id e = has_id id e && is_unreviewed e

-- The `data` of the decision's updateMany.
abbrev pub review_row : Decision → ActionDto → Option FlagReason → ℕ → QueueEntry → QueueEntry
review_row d dto flag_reason now e = record e {
  reviewed_at = some now;
  reviewed_by = or_keep dto.reviewed_by e.reviewed_by;
  flag_reason = or_keep flag_reason e.flag_reason;
  decision = some (to_status d);
  rejection_reason_category = or_keep dto.rejection_reason_category e.rejection_reason_category;
  review_note = or_keep dto.review_note e.review_note;
}

module _ ⦃P : Prisma⦄ where
  -- `delete`, which fails where the row is gone.
  unfoldable pub delete_entry : ℕ → Action Unit
  delete_entry id = do
    db ← gets (λ w. w.db)
    rows ← or_raise (P.delete (has_id id) db.queue) record_not_found
    put_db (record db { queue = rows })

  -- The orphan guard.
  drop_orphan : QueueEntry → ℕ → Action Unit
  unfolding delete_entry
  drop_orphan entry id = do
    delete_entry id
    remove_from_search_index entry.entity_type entry.entity_id
    raise orphaned

  -- What runs before the transaction.
  unfoldable pub review_check : ℕ → Action QueueEntry
  unfolding drop_orphan
  review_check id = do
    entry ← find_entry id
    raise_if (is_some entry.reviewed_at) already_reviewed
    exists ← gets (entity_exists entry.entity_type entry.entity_id)
    when (not exists) (drop_orphan entry id)
    pure entry

  -- `tx.<table>.update({ where: { id }, data: { status } })`
  unfoldable pub set_status : EntityType → ℕ → Status → Action Unit
  set_status round_rating id status = do
    db ← gets (λ w. w.db)
    rows ←
        or_raise (P.update (λ r. r.id == id) (λ r. record r { status = status }) db.round_ratings)
          record_not_found
    put_db (record db { round_ratings = rows })
  set_status recruiter_rating id status = do
    db ← gets (λ w. w.db)
    rows ←
        or_raise
          (P.update (λ r. r.id == id) (λ r. record r { status = status }) db.recruiter_ratings)
          record_not_found
    put_db (record db { recruiter_ratings = rows })
  set_status overall_review id status = do
    db ← gets (λ w. w.db)
    rows ←
        or_raise (P.update (λ r. r.id == id) (λ r. record r { status = status }) db.overall_reviews)
          record_not_found
    put_db (record db { overall_reviews = rows })
  set_status company id status = do
    db ← gets (λ w. w.db)
    rows ←
        or_raise (P.update (λ c. c.id == id) (λ c. record c { status = status }) db.companies)
          record_not_found
    put_db (record db { companies = rows })

  unfoldable pub record_audit : ℕ → Option AuditInput → Action Unit
  record_audit id none = pure tt
  record_audit id (some audit) = do
    db ← gets (λ w. w.db)
    let row : AiAutoApprovalAudit = record {
      entity_type = audit.entity_type;
      entity_id = audit.entity_id;
      moderation_queue_entry_id = id;
      prompt_content = audit.prompt_content;
      response_text = audit.response_text;
      verdict = audit.verdict;
      confidence = audit.confidence;
      model = audit.model;
    }
    put_db (record db { audits = P.create row db.audits })

  -- The gated write of the decision.
  unfoldable pub decide : ℕ → Decision → ActionDto → Option FlagReason → Action Unit
  decide id d dto flag_reason = do
    now ← gets (λ w. w.now)
    db ← gets (λ w. w.db)
    let (count, rows) = P.update_many (is_open id) (review_row d dto flag_reason now) db.queue
    put_db (record db { queue = rows })
    raise_if (count == 0) already_reviewed

  -- The transaction.
  unfoldable pub review_commit :
      QueueEntry
      → ℕ
      → Decision
      → ActionDto
      → Option FlagReason
      → Option AuditInput
      → Action QueueEntry
  review_commit entry id d dto flag_reason audit = transaction do
    decide id d dto flag_reason
    updated ← find_entry id
    set_status entry.entity_type entry.entity_id (entity_status d entry.escalated)
    record_audit id audit
    pure updated

  -- What runs after the transaction has committed.
  unfoldable pub review_after : QueueEntry → ℕ → Decision → ActionDto → Action Unit
  unfolding index_approved_review index_approved_company refresh_analytics_view
      remove_from_search_index publish_status_changed_event publish_sla_resolved_event entity_status
  review_after entry id d dto = do
    let is_approval = is_approved d
    when (is_approval && same_type entry.entity_type round_rating)
        (index_approved_review entry.entity_id)
    when (is_approval && same_type entry.entity_type company)
        (index_approved_company entry.entity_id)
    when is_approval (refresh_analytics_view entry.entity_type)
    remove_from_search_index entry.entity_type entry.entity_id
    publish_status_changed_event entry.entity_type entry.entity_id (entity_status d entry.escalated)
        dto.reviewed_by id dto.rejection_reason_category dto.review_note
    when (is_some entry.breach_notified_at || is_some entry.warning_notified_at)
        (publish_sla_resolved_event entry (to_status d) dto.reviewed_by id)

  unfoldable pub review :
      ℕ → Decision → ActionDto → Option FlagReason → Option AuditInput → Action QueueEntry
  review id d dto flag_reason audit = do
    entry ← review_check id
    updated ← review_commit entry id d dto flag_reason audit
    review_after entry id d dto
    pure updated

  unfoldable pub approve : ℕ → ActionDto → Action QueueEntry
  approve id dto = review id decided_approved dto none none

  -- A rejection states its reason.
  unfoldable pub reject : ℕ → ActionDto → Action QueueEntry
  reject id dto = do
    raise_if (not (is_some dto.rejection_reason_category))
        (bad_request "rejectionReasonCategory is required when rejecting.")
    review id decided_rejected dto none none

  unfoldable pub flag : ℕ → ActionDto → Option FlagReason → Action QueueEntry
  flag id dto flag_reason = review id decided_flagged dto flag_reason none

  unfoldable pub approve_with_audit : ℕ → ActionDto → AuditInput → Action QueueEntry
  approve_with_audit id dto audit = review id decided_approved dto none (some audit)
