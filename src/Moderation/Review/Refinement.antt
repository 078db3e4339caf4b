-- ===== src/Moderation/Review/Refinement.antt =====
-- The whole of review against a specification of its answer and of the database that it leaves.
use interview_insights.Prelude.{
  ℕ, ◌≡◌, inl, inr, true, false, Option, none, some, is_some, first, drop_where, arith,
  if◌then◌else◌, Bool-cases, Option-cases, count-eq-zero,
}
use interview_insights.Prisma.{Prisma}
use interview_insights.Schema.{FlagReason, QueueEntry, Db}
use interview_insights.World.{World, Result, ok, raised, record_not_found}
use interview_insights.Moderation.Queue.{has_id}
use interview_insights.Moderation.Claims.{already_reviewed}
use interview_insights.Moderation.Indexing.{remove_from_search_index}
use interview_insights.Moderation.Entities.{status_of, entity_exists-eq}
use interview_insights.Moderation.Review.{
  Decision, ActionDto, AuditInput, review_row, review_check, review, orphaned,
}
use interview_insights.Moderation.Review.Outcomes.{review_commit_open, committed, with_db}
use interview_insights.Moderation.Review.BestEffort.{review_after-eq}

module _ (id : ℕ) (d : Decision) (dto : ActionDto) (fr : Option FlagReason)
    (audit : Option AuditInput) where
  -- What a review answers and what it leaves in the database, by the row that the id finds.
  abbrev pub review_spec : World → Option QueueEntry → Result QueueEntry × Db
  review_spec w none = (raised record_not_found, w.db)
  review_spec w (some e) =
      if is_some e.reviewed_at
      then (raised already_reviewed, w.db)
      else if is_some (status_of e.entity_type e.entity_id w.db)
      then (ok (review_row d dto fr w.now e), committed id d dto fr audit e w)
      else (raised orphaned, record w.db { queue = drop_where (has_id id) w.db.queue })

  module _ ⦃P : Prisma⦄ where
    pub review_open :
        (w : World) (e : QueueEntry)
        → first (has_id id) w.db.queue ≡ some e
        → is_some e.reviewed_at ≡ false
        → is_some (status_of e.entity_type e.entity_id w.db) ≡ true
        → let out = review id d dto fr audit w in
          (out.0 ≡ ok (review_row d dto fr w.now e)) × (out.1.db ≡ committed id d dto fr audit e w)
    unfolding review review_check
    review_open w e s r h = ground (
      arith,
      P.find_first_law (has_id id) w.db.queue,
      entity_exists-eq e.entity_type e.entity_id w,
      review_commit_open id d dto fr audit e w e s r h,
      review_after-eq e id d dto (with_db w (committed id d dto fr audit e w)),
    )

    review_orphan :
        (w : World) (e : QueueEntry)
        → first (has_id id) w.db.queue ≡ some e
        → is_some e.reviewed_at ≡ false
        → is_some (status_of e.entity_type e.entity_id w.db) ≡ false
        → let out = review id d dto fr audit w in
          (out.0 ≡ raised orphaned)
          × (out.1.db ≡ record w.db { queue = drop_where (has_id id) w.db.queue })
    unfolding review review_check remove_from_search_index
    review_orphan w e s r h = ground (
      arith,
      P.find_first_law (has_id id) w.db.queue,
      entity_exists-eq e.entity_type e.entity_id w,
      P.delete_law (has_id id) w.db.queue,
      count-eq-zero (has_id id) w.db.queue,
    )

    -- A review answers and leaves in the database what the specification says, on every branch: a
    -- missing entry and a reviewed one are refused and no table changes; an entry whose entity is gone
    -- is removed and refused; any other is decided.
    pub review_outcome :
        (w : World)
        → let out = review id d dto fr audit w in
          (out.0, out.1.db) ≡ review_spec w (first (has_id id) w.db.queue)
    unfolding review review_check
    review_outcome w = elim (Option-cases (first (has_id id) w.db.queue)) [
      | inl n ↦ ground (arith, P.find_first_law (has_id id) w.db.queue)
      | inr (e, s) ↦ elim (Bool-cases (is_some e.reviewed_at)) [
        | inl r ↦ ground (arith, P.find_first_law (has_id id) w.db.queue)
        | inr r ↦ elim (Bool-cases (is_some (status_of e.entity_type e.entity_id w.db))) [
          | inl h ↦ rw s (ground (arith, review_open w e s r h))
          | inr h ↦ rw s (ground (arith, review_orphan w e s r h))
        ]
      ]
    ]
