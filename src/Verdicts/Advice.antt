-- ===== src/Verdicts/Advice.antt =====
-- What a verdict may and may not do to the queue and to the reviews.

use interview_insights.Prelude.{
  ℕ, ◌≡◌, refl, inl, inr, Bool, true, false, Option, none, some, is_some, [], ◌∷◌, ◌++◌, keep,
  first, IsKeyed, IsLatest, first_of_IsRow, arith, Bool-cases,
}
use interview_insights.Prisma.{Prisma}
use interview_insights.Schema.{EntityType, approved, QueueEntry}
use interview_insights.World.{World, when}
use interview_insights.Moderation.Queue.{has_id, is_unreviewed_for}
use interview_insights.Moderation.Entities.{status_of}
use interview_insights.Moderation.Review.{
  decided_approved, review_row, review, entity_status, approve_with_audit,
}
use interview_insights.Moderation.Review.Outcomes.{with_db}
use interview_insights.Moderation.Review.Decisions.{review_committed}
use interview_insights.Moderation.Review.Escalated.{keep-review}
use interview_insights.Verdicts.{
  VerdictEvent, entity_type_for, audit_of, acts_as, auto_approval_system_actor, or_else,
  pending_entry, approve_found, auto_approve, apply_verdict, process_event,
}
use interview_insights.Verdicts.Stored.{
  with_verdict, queue-with_verdict, audits-with_verdict, status_of-with_verdict, store_verdict-eq,
}
use interview_insights.Verdicts.Pending.{pending-first}

abbrev pub is_escalated : QueueEntry → Bool
is_escalated e = e.escalated

module _ ⦃P : Prisma⦄ where
  approve_found-kept :
      (event : VerdictEvent) (t : EntityType) (id : ℕ) (v : World) (o : Option QueueEntry)
      → IsKeyed (λ e. e.id) v.db.queue
      → IsLatest (is_unreviewed_for t id) (λ e. e.created_at) v.db.queue o
      → keep is_escalated (approve_found event o v).1.db.queue ≡ keep is_escalated v.db.queue
  unfolding approve_found approve_with_audit
  approve_found-kept event t id v none u l = refl
  approve_found-kept event t id v (some entry) u l = elim (Bool-cases entry.escalated) [
    | inl e ↦ ground arith
    | inr e ↦ ground (
      arith,
      keep-review entry.id decided_approved (acts_as auto_approval_system_actor) none
          (some (audit_of event)) is_escalated v entry u
          (first_of_IsRow (λ (e : QueueEntry). e.id) v.db.queue entry u l.1) (λ now x. refl) e,
    )
  ]

  auto_approve-kept :
      (event : VerdictEvent) (v : World)
      → IsKeyed (λ e. e.id) v.db.queue
      → keep is_escalated (auto_approve event v).1.db.queue ≡ keep is_escalated v.db.queue
  unfolding auto_approve
  auto_approve-kept event v u =
      approve_found-kept event (entity_type_for event.about) event.id v _ u (
        P.find_latest_law (is_unreviewed_for (entity_type_for event.about) event.id)
          (λ (e : QueueEntry). e.created_at) v.db.queue)

  -- The world after the verdict of an event has been stored.
  abbrev pub stored : VerdictEvent → World → World
  stored event w = with_db w (with_verdict event.about event.id (or_else event.verdict "{}") w.db)

  IsKeyed-stored :
      (event : VerdictEvent) (w : World)
      → IsKeyed (λ e. e.id) w.db.queue
      → IsKeyed (λ e. e.id) (stored event w).db.queue
  IsKeyed-stored event w u =
      rw (queue-with_verdict event.about event.id (or_else event.verdict "{}") w.db) u

  when-auto_approve :
      (event : VerdictEvent) (c : Bool) (w : World)
      → IsKeyed (λ e. e.id) w.db.queue
      → keep is_escalated (when c (auto_approve event) w).1.db.queue ≡ keep is_escalated w.db.queue
  when-auto_approve event true w u = auto_approve-kept event w u
  when-auto_approve event false w u = refl

  -- A verdict that is no report of a stalled review never touches an escalated entry: however
  -- confident the analyzer is, the escalated entries of the queue stay as they are, where the ids
  -- of the queue are distinct.
  pub process_event-escalated :
      (event : VerdictEvent) (w : World)
      → event.stalled ≡ false
      → IsKeyed (λ e. e.id) w.db.queue
      → keep is_escalated (process_event event w).1.db.queue ≡ keep is_escalated w.db.queue
  unfolding process_event apply_verdict
  process_event-escalated event w s u = ground (
    arith,
    store_verdict-eq event.about event.id (or_else event.verdict "{}") w,
    queue-with_verdict event.about event.id (or_else event.verdict "{}") w.db,
    when-auto_approve event event.auto_approval_eligible (stored event w)
        (IsKeyed-stored event w u),
  )

  approve_found_eq :
      (event : VerdictEvent) (entry : QueueEntry) (v : World)
      → entry.escalated ≡ false
      → (approve_found event (some entry) v).1
        ≡ (review entry.id decided_approved
            (acts_as auto_approval_system_actor)
            none
            (some (audit_of event))
            v).1
  unfolding approve_found approve_with_audit
  approve_found_eq event entry v e = ground arith

  process_event_eligible :
      (event : VerdictEvent) (w : World) (entry : QueueEntry)
      → event.stalled ≡ false
      → event.auto_approval_eligible ≡ true
      → is_some (status_of (entity_type_for event.about) event.id w.db) ≡ true
      → pending_entry (entity_type_for event.about) event.id w ≡ some entry
      → entry.escalated ≡ false
      → (process_event event w).1
        ≡ (review entry.id decided_approved
            (acts_as auto_approval_system_actor)
            none
            (some (audit_of event))
            (stored event w)).1
  unfolding process_event apply_verdict auto_approve
  process_event_eligible event w entry s a h p e = ground (
    arith,
    store_verdict-eq event.about event.id (or_else event.verdict "{}") w,
    queue-with_verdict event.about event.id (or_else event.verdict "{}") w.db,
    approve_found_eq event entry (stored event w) e,
  )

  -- A verdict that is eligible and no report of a stalled review, on a review that exists and whose
  -- latest pending entry is not escalated, approves: the row with the entry's id is decided as
  -- approved, now and by the system's actor; the review is approved; and the audit trail grows by
  -- one row, which names the review and the entry and carries the event's prompt, answer, verdict,
  -- confidence and model. The ids of the queue are distinct.
  pub process_event_approves :
      (event : VerdictEvent) (w : World) (entry : QueueEntry)
      → IsKeyed (λ e. e.id) w.db.queue
      → event.stalled ≡ false
      → event.auto_approval_eligible ≡ true
      → is_some (status_of (entity_type_for event.about) event.id w.db) ≡ true
      → pending_entry (entity_type_for event.about) event.id w ≡ some entry
      → entry.escalated ≡ false
      → let db = (process_event event w).1.db in
        (row : QueueEntry) × (first (has_id entry.id) db.queue ≡ some row)
        × (row.decision ≡ some approved)
        × (row.reviewed_by ≡ some auto_approval_system_actor)
        × (row.reviewed_at ≡ some w.now)
        × (status_of (entity_type_for event.about) event.id db ≡ some approved)
        × (db.audits
            ≡ w.db.audits
              ++ record {
                entity_type = entity_type_for event.about;
                entity_id = event.id;
                moderation_queue_entry_id = entry.id;
                prompt_content = or_else event.prompt_content "";
                response_text = or_else event.response_text "";
                verdict = or_else event.verdict "{}";
                confidence = or_else event.confidence 0;
                model = or_else event.model "";
              }
                ∷ [])
  unfolding entity_status audit_of
  process_event_approves event w entry u s a h p e =
      let found = pending-first (entity_type_for event.about) event.id w entry p u in
      let decides =
        review_committed entry.id decided_approved (acts_as auto_approval_system_actor) none
          (some (audit_of event)) (stored event w) entry
          (rw (queue-with_verdict event.about event.id (or_else event.verdict "{}") w.db) found.0)
          found.3
          (ground (
            arith,
            found.1,
            found.2,
            status_of-with_verdict event.about event.id (or_else event.verdict "{}") w.db,
          )) in
      rw (process_event_eligible event w entry s a h p e) (
        review_row decided_approved (acts_as auto_approval_system_actor) none w.now entry,
        decides.0,
        refl,
        refl,
        refl,
        ground (arith, decides.1, found.1, found.2, e),
        ground (
          arith,
          decides.2,
          audits-with_verdict event.about event.id (or_else event.verdict "{}") w.db,
        ),
      )
