-- ===== src/Moderation/Review/Decisions.antt =====
-- What a successful decision leaves behind, and what it does not depend on.
use interview_insights.Prelude.{
  ℕ, ◌≡◌, refl, Bool, true, false, Option, none, some, is_some, List, [], ◌∷◌, first, arith,
  first-change, first_sound, if◌then◌else◌,
}
use interview_insights.Prisma.{Prisma}
use interview_insights.Schema.{
  EntityType, round_rating, Status, approved, rejected, flagged, permanently_rejected, FlagReason,
  QueueEntry, AiAutoApprovalAudit, Db,
}
use interview_insights.World.Calls.{Call}
use interview_insights.World.{World}
use interview_insights.Moderation.Queue.{has_id}
use interview_insights.Moderation.Entities.{
  status_of, with_status, status_of-with_status, status_of-queue, queue-with_status,
  audits-with_status,
}
use interview_insights.Moderation.Review.{
  Decision, decided_approved, decided_rejected, decided_flagged, ActionDto, AuditInput, is_open,
  review_row, review, entity_status,
}
use interview_insights.Moderation.Review.Outcomes.{audited, queue-audited, decided_queue}
use interview_insights.Moderation.Review.Refinement.{review_outcome, review_open}

pub status_of-audited :
    (t : EntityType) (entity_id id : ℕ) (audit : Option AuditInput) (db : Db)
    → status_of t entity_id (audited id audit db) ≡ status_of t entity_id db
unfolding status_of
status_of-audited round_rating entity_id id none db = refl
status_of-audited round_rating entity_id id (some a) db = refl
status_of-audited _ entity_id id none db = refl
status_of-audited _ entity_id id (some a) db = refl

-- The status that stands for a decision in the queue.
abbrev pub announced : Decision → Status
announced decided_approved = approved
announced decided_rejected = rejected
announced decided_flagged = flagged

-- The status of a submission whose entry, escalated or not, is decided.
abbrev pub status_after : Decision → Bool → Status
status_after decided_approved escalated = approved
status_after decided_flagged escalated = flagged
status_after decided_rejected escalated = if escalated then permanently_rejected else rejected

-- The value that is given, or the one from before where none is.
abbrev pub given : {A : Type 0} → Option A → Option A → Option A
given new old = if is_some new then new else old

-- The entry after its decision.
abbrev pub IsDecided :
    Decision → ActionDto → Option FlagReason → ℕ → QueueEntry → Option QueueEntry → Type 0
IsDecided d dto fr now e found =
    (row : QueueEntry) × (found ≡ some row)
    × (row.reviewed_at ≡ some now)
    × (row.reviewed_by ≡ given dto.reviewed_by e.reviewed_by)
    × (row.flag_reason ≡ given fr e.flag_reason)
    × (row.decision ≡ some (announced d))
    × (row.rejection_reason_category
        ≡ given dto.rejection_reason_category e.rejection_reason_category)
    × (row.review_note ≡ given dto.review_note e.review_note)
    × (row.id ≡ e.id)
    × (row.entity_type ≡ e.entity_type)
    × (row.entity_id ≡ e.entity_id)
    × (row.escalated ≡ e.escalated)
    × (row.created_at ≡ e.created_at)

-- The rows of the audit trail that a decision adds.
abbrev pub audits_given : ℕ → Option AuditInput → List AiAutoApprovalAudit
audits_given id none = []
audits_given id (some a) =
    record {
      entity_type = a.entity_type;
      entity_id = a.entity_id;
      moderation_queue_entry_id = id;
      prompt_content = a.prompt_content;
      response_text = a.response_text;
      verdict = a.verdict;
      confidence = a.confidence;
      model = a.model;
    }
    ∷ []

pub entity_status-eq : (d : Decision) (b : Bool) → entity_status d b ≡ status_after d b
unfolding entity_status
entity_status-eq decided_approved b = refl
entity_status-eq decided_rejected true = refl
entity_status-eq decided_rejected false = refl
entity_status-eq decided_flagged b = refl

module _ ⦃P : Prisma⦄ (id : ℕ) (d : Decision) (dto : ActionDto) (fr : Option FlagReason)
    (audit : Option AuditInput) where
  pub review_committed :
      (w : World) (e : QueueEntry)
      → first (has_id id) w.db.queue ≡ some e
      → is_some e.reviewed_at ≡ false
      → is_some (status_of e.entity_type e.entity_id w.db) ≡ true
      → let db = (review id d dto fr audit w).1.db in
        (first (has_id id) db.queue ≡ some (review_row d dto fr w.now e))
        × (status_of e.entity_type e.entity_id db ≡ some (entity_status d e.escalated))
        × (db.audits ≡ (audited id audit w.db).audits)
  review_committed w e s r h = rw (review_open id d dto fr audit w e s r h).1 (
    ground (
      arith,
      queue-audited id audit (
          with_status e.entity_type e.entity_id (entity_status d e.escalated)
            (decided_queue id d dto fr w.now w.db)),
      queue-with_status e.entity_type e.entity_id (entity_status d e.escalated)
          (decided_queue id d dto fr w.now w.db),
      first-change (has_id id) (is_open id) (review_row d dto fr w.now) w.db.queue (λ x. refl),
      first_sound (has_id id) w.db.queue e s,
    ),
    ground (
      arith,
      status_of-audited e.entity_type e.entity_id id audit (
          with_status e.entity_type e.entity_id (entity_status d e.escalated)
            (decided_queue id d dto fr w.now w.db)),
      status_of-queue e.entity_type e.entity_id w.db (decided_queue id d dto fr w.now w.db).queue,
      status_of-with_status e.entity_type e.entity_id (entity_status d e.escalated)
          (decided_queue id d dto fr w.now w.db),
    ),
    ground (
      arith,
      audits-with_status e.entity_type e.entity_id (entity_status d e.escalated)
          (decided_queue id d dto fr w.now w.db),
    ),
  )

  -- Neither the answer of a review nor what it leaves in the database depends on how OpenSearch, the
  -- broker and the view refresh answer, or on whether the broker is connected.
  pub review-answers :
      (w : World) (answers : Call → Bool) (connected : Bool)
      → let out = review id d dto fr audit w in
        let out' =
          review id d dto fr audit (record w { answers = answers; connected = connected }) in
        (out'.0 ≡ out.0) × (out'.1.db ≡ out.1.db)
  review-answers w answers connected = ground (
    arith,
    review_outcome id d dto fr audit w,
    review_outcome id d dto fr audit (record w { answers = answers; connected = connected }),
  )
