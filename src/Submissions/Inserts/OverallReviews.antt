-- ===== src/Submissions/Inserts/OverallReviews.antt =====
-- What inserting a review of a process does.
use interview_insights.Prelude.{
  ℕ, ◌+◌, ◌*◌, ◌≡◌, refl, true, false, [], ◌∷◌, ◌++◌, count_where, arith, ◌==◌,
}
use interview_insights.Prisma.{Prisma}
use interview_insights.Schema.{overall_review, QueueEntry, OverallReview, OverallReviewDto}
use interview_insights.World.{World, Failure, ok, raised, unique_violation}
use interview_insights.Moderation.Queue.{
  get_moderation_sla_hours, compute_sla_deadline, new_entry, create_entry, enqueue,
}
use interview_insights.Moderation.Queue.Resubmission.{hours-elsewhere, hours_refused-elsewhere}
use interview_insights.Fraud.{TextTools, detect_flag_reason}
use interview_insights.Submissions.Inserts.{insert_overall_review, overall_review_of, is_review_of}

module _ ⦃P : Prisma⦄ (tools : TextTools) (process candidate : ℕ) (dto : OverallReviewDto) where
  -- The new row.
  abbrev pub new_overall_review : World → OverallReview
  new_overall_review w = overall_review_of (P.uuid w.issued) process candidate dto w.now

  -- Its queue entry.
  abbrev pub new_overall_review_entry : ℕ → World → QueueEntry
  new_overall_review_entry h w =
      new_entry (P.uuid (P.uuid w.issued ∷ w.issued)) overall_review (P.uuid w.issued)
        (detect_flag_reason tools candidate overall_review dto.review_text w)
        (w.now + h * 60 * 60 * 1000) false w.now

  abbrev pub with_overall_review : World → World
  with_overall_review w = record w {
    db = record w.db { overall_reviews = w.db.overall_reviews ++ new_overall_review w ∷ [] };
    issued = P.uuid w.issued ∷ w.issued;
  }

  abbrev pub after_overall_review : ℕ → World → World
  after_overall_review h w = record (with_overall_review w) {
    db = record (with_overall_review w).db {
      queue = w.db.queue ++ new_overall_review_entry h w ∷ [];
    };
    issued = P.uuid (P.uuid w.issued ∷ w.issued) ∷ P.uuid w.issued ∷ w.issued;
  }

  pub insert_overall_review-eq :
      (h : ℕ) (w : World)
      → (count_where (is_review_of process) w.db.overall_reviews == 0) ≡ true
      → get_moderation_sla_hours w ≡ (ok h, w)
      → insert_overall_review tools process candidate dto w
        ≡ (ok (new_overall_review w), after_overall_review h w)
  unfolding insert_overall_review enqueue compute_sla_deadline create_entry
  insert_overall_review-eq h w n e = ground (
    arith,
    P.count_law (is_review_of process) w.db.overall_reviews,
    P.create_law (new_overall_review w) w.db.overall_reviews,
    hours-elsewhere h w (with_overall_review w) refl e,
    P.create_law (new_overall_review_entry h w) w.db.queue,
  )

  pub insert_overall_review_taken :
      (w : World)
      → (count_where (is_review_of process) w.db.overall_reviews == 0) ≡ false
      → insert_overall_review tools process candidate dto w ≡ (raised unique_violation, w)
  unfolding insert_overall_review
  insert_overall_review_taken w n =
      ground (arith, P.count_law (is_review_of process) w.db.overall_reviews)

  pub insert_overall_review_refused :
      (f : Failure) (w : World)
      → (count_where (is_review_of process) w.db.overall_reviews == 0) ≡ true
      → get_moderation_sla_hours w ≡ (raised f, w)
      → insert_overall_review tools process candidate dto w ≡ (raised f, with_overall_review w)
  unfolding insert_overall_review enqueue compute_sla_deadline
  insert_overall_review_refused f w n e = ground (
    arith,
    P.count_law (is_review_of process) w.db.overall_reviews,
    P.create_law (new_overall_review w) w.db.overall_reviews,
    hours_refused-elsewhere f w (with_overall_review w) refl e,
  )
