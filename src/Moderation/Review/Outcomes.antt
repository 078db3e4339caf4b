-- ===== src/Moderation/Review/Outcomes.antt =====
-- What a decision does to the queue, the entity and the audit trail, and that a refused one does
-- nothing.
use interview_insights.Prelude.{
  ℕ, ◌≡◌, refl, true, false, Option, none, some, is_some, [], ◌∷◌, ◌++◌, first, change, IsKeyed,
  arith, count-zero_of_none, count-zero_of_first, count-pos_of_first, first_sound, change-none,
  first-change,
}
use interview_insights.Prisma.{Prisma}
use interview_insights.Schema.{FlagReason, QueueEntry, Db, AiAutoApprovalAudit}
use interview_insights.World.{World, ok, raised, record_not_found}
use interview_insights.Moderation.Queue.{has_id}
use interview_insights.Moderation.Claims.{already_reviewed}
use interview_insights.Moderation.Entities.{status_of, with_status, set_status-eq, status_of-queue}
use interview_insights.Moderation.Review.{
  Decision, ActionDto, AuditInput, is_open, review_row, decide, record_audit, review_commit,
  entity_status,
}

-- The row that the audit of a decision adds.
abbrev pub audit_row : ℕ → AuditInput → AiAutoApprovalAudit
audit_row id audit = record {
  entity_type = audit.entity_type;
  entity_id = audit.entity_id;
  moderation_queue_entry_id = id;
  prompt_content = audit.prompt_content;
  response_text = audit.response_text;
  verdict = audit.verdict;
  confidence = audit.confidence;
  model = audit.model;
}

abbrev pub audited : ℕ → Option AuditInput → Db → Db
audited id none db = db
audited id (some audit) db = record db { audits = db.audits ++ audit_row id audit ∷ [] }

pub queue-audited :
    (id : ℕ) (audit : Option AuditInput) (db : Db) → (audited id audit db).queue ≡ db.queue
queue-audited id none db = refl
queue-audited id (some a) db = refl

abbrev pub with_db : World → Db → World
with_db w db = record w { db = db }

-- The queue after the decision on an entry.
abbrev pub decided_queue : ℕ → Decision → ActionDto → Option FlagReason → ℕ → Db → Db
decided_queue id d dto flag_reason now db = record db {
  queue = change (is_open id) (review_row d dto flag_reason now) db.queue;
}

-- The database after a decision that commits.
abbrev pub committed :
    ℕ → Decision → ActionDto → Option FlagReason → Option AuditInput → QueueEntry → World → Db
committed id d dto fr audit entry w = audited id audit (
    with_status entry.entity_type entry.entity_id (entity_status d entry.escalated)
      (decided_queue id d dto fr w.now w.db))

module _ ⦃P : Prisma⦄ (id : ℕ) (d : Decision) (dto : ActionDto) (fr : Option FlagReason) where
  decide-none :
      (w : World)
      → first (has_id id) w.db.queue ≡ none
      → decide id d dto fr w ≡ (raised already_reviewed, w)
  unfolding decide
  decide-none w n = ground (
    arith,
    P.update_many_law (is_open id) (review_row d dto fr w.now) w.db.queue,
    count-zero_of_none (has_id id) (is_open id) w.db.queue (λ x h. ground arith) n,
    change-none (is_open id) (review_row d dto fr w.now) w.db.queue,
  )

  decide_closed :
      (w : World) (e : QueueEntry)
      → IsKeyed (λ e. e.id) w.db.queue
      → first (has_id id) w.db.queue ≡ some e
      → is_some e.reviewed_at ≡ true
      → decide id d dto fr w ≡ (raised already_reviewed, w)
  unfolding decide
  decide_closed w e u s r = ground (
    arith,
    P.update_many_law (is_open id) (review_row d dto fr w.now) w.db.queue,
    count-zero_of_first (λ (e : QueueEntry). e.id) id (is_open id) w.db.queue e u
        (λ x h. ground arith) s,
    change-none (is_open id) (review_row d dto fr w.now) w.db.queue,
  )

  decide_open :
      (w : World) (e : QueueEntry)
      → first (has_id id) w.db.queue ≡ some e
      → is_some e.reviewed_at ≡ false
      → decide id d dto fr w ≡ (ok tt, with_db w (decided_queue id d dto fr w.now w.db))
  unfolding decide
  decide_open w e s r = ground (
    arith,
    P.update_many_law (is_open id) (review_row d dto fr w.now) w.db.queue,
    first_sound (has_id id) w.db.queue e s,
    count-pos_of_first (has_id id) (is_open id) w.db.queue e s,
  )

  pub record_audit-eq :
      (audit : Option AuditInput) (w : World)
      → record_audit id audit w ≡ (ok tt, with_db w (audited id audit w.db))
  unfolding record_audit
  record_audit-eq none w = refl
  record_audit-eq (some audit) w = ground (arith, P.create_law (audit_row id audit) w.db.audits)

  module _ (audit : Option AuditInput) (entry : QueueEntry) where
    pub review_commit-none :
        (w : World)
        → first (has_id id) w.db.queue ≡ none
        → review_commit entry id d dto fr audit w ≡ (raised already_reviewed, w)
    unfolding review_commit
    review_commit-none w n = ground (arith, decide-none w n)

    pub review_commit_closed :
        (w : World) (e : QueueEntry)
        → IsKeyed (λ e. e.id) w.db.queue
        → first (has_id id) w.db.queue ≡ some e
        → is_some e.reviewed_at ≡ true
        → review_commit entry id d dto fr audit w ≡ (raised already_reviewed, w)
    unfolding review_commit
    review_commit_closed w e u s r = ground (arith, decide_closed w e u s r)

    pub review_commit_open :
        (w : World) (e : QueueEntry)
        → first (has_id id) w.db.queue ≡ some e
        → is_some e.reviewed_at ≡ false
        → is_some (status_of entry.entity_type entry.entity_id w.db) ≡ true
        → review_commit entry id d dto fr audit w
          ≡ (ok (review_row d dto fr w.now e), with_db w (committed id d dto fr audit entry w))
    unfolding review_commit
    review_commit_open w e s r h = ground (
      arith,
      decide_open w e s r,
      P.find_first_law (has_id id) (decided_queue id d dto fr w.now w.db).queue,
      first-change (has_id id) (is_open id) (review_row d dto fr w.now) w.db.queue (λ x. refl),
      first_sound (has_id id) w.db.queue e s,
      set_status-eq entry.entity_type entry.entity_id (entity_status d entry.escalated)
          (with_db w (decided_queue id d dto fr w.now w.db)),
      status_of-queue entry.entity_type entry.entity_id w.db
          (decided_queue id d dto fr w.now w.db).queue,
      record_audit-eq audit (
          with_db w (
            with_status entry.entity_type entry.entity_id (entity_status d entry.escalated)
              (decided_queue id d dto fr w.now w.db))),
    )

    pub review_commit_gone :
        (w : World) (e : QueueEntry)
        → first (has_id id) w.db.queue ≡ some e
        → is_some e.reviewed_at ≡ false
        → is_some (status_of entry.entity_type entry.entity_id w.db) ≡ false
        → review_commit entry id d dto fr audit w ≡ (raised record_not_found, w)
    unfolding review_commit
    review_commit_gone w e s r h = ground (
      arith,
      decide_open w e s r,
      P.find_first_law (has_id id) (decided_queue id d dto fr w.now w.db).queue,
      first-change (has_id id) (is_open id) (review_row d dto fr w.now) w.db.queue (λ x. refl),
      first_sound (has_id id) w.db.queue e s,
      set_status-eq entry.entity_type entry.entity_id (entity_status d entry.escalated)
          (with_db w (decided_queue id d dto fr w.now w.db)),
      status_of-queue entry.entity_type entry.entity_id w.db
          (decided_queue id d dto fr w.now w.db).queue,
    )
