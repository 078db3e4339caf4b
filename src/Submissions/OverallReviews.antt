-- ===== src/Submissions/OverallReviews.antt =====
-- api/src/overall-reviews/overall-reviews.service.ts.
use interview_insights.Prelude.{ℕ, not, none, some, ◌==◌}
use interview_insights.Prisma.{Prisma}
use interview_insights.Schema.{
  overall_review, pending, permanently_rejected, same_status, QueueEntry, OverallReview,
  OverallReviewDto,
}
use interview_insights.World.{
  Action, Failure, forbidden, record_not_found, pure, raise_if, or_raise, gets, put_db, transaction,
  ◌>>=◌, ◌>>◌,
}
use interview_insights.Moderation.Queue.{reenqueue, remove_queue_entries}
use interview_insights.Moderation.Publishing.{publish_created_event}
use interview_insights.Moderation.Indexing.{index_for_search, remove_from_search_index}
use interview_insights.Moderation.Review.{or_keep}
use interview_insights.Fraud.{TextTools}
use interview_insights.Submissions.Inserts.{insert_overall_review, is_review_of}

abbrev pub review_not_yours_to_edit : Failure
review_not_yours_to_edit = forbidden "You can only edit your own review."

abbrev pub review_not_yours_to_delete : Failure
review_not_yours_to_delete = forbidden "You can only delete your own review."

abbrev pub review_closed : Failure
review_closed = forbidden "This review has been permanently rejected and can no longer be edited."

-- data: { ...dto, status: 'pending', moderationVerdict: DbNull }
abbrev pub edited_review : OverallReviewDto → OverallReview → OverallReview
edited_review dto r = record r {
  content = record dto { review_text = or_keep dto.review_text r.content.review_text };
  status = pending;
  moderation_verdict = none;
}

module _ ⦃P : Prisma⦄ (tools : TextTools) where
  unfoldable pub create_overall_review : ℕ → ℕ → OverallReviewDto → Action OverallReview
  create_overall_review process candidate dto = do
    review ← transaction (insert_overall_review tools process candidate dto)
    index_for_search overall_review review.id
    publish_created_event overall_review review.id none
    pure review

module _ ⦃P : Prisma⦄ where
  -- findFirstOrThrow
  unfoldable pub find_overall_review : ℕ → Action OverallReview
  find_overall_review process = do
    found ← gets (λ w. P.find_first (is_review_of process) w.db.overall_reviews)
    or_raise found record_not_found

  -- The transaction of an edit, of the review with the given id.
  unfoldable pub edit_overall_review :
      ℕ → ℕ → OverallReviewDto → Action (OverallReview × QueueEntry)
  edit_overall_review process id dto = transaction do
    db ← gets (λ w. w.db)
    rows ←
        or_raise (P.update (is_review_of process) (edited_review dto) db.overall_reviews)
          record_not_found
    put_db (record db { overall_reviews = rows })
    found ← gets (λ w. P.find_first (is_review_of process) w.db.overall_reviews)
    updated ← or_raise found record_not_found
    entry ← reenqueue overall_review id
    pure (updated, entry)

  unfoldable pub update_overall_review : ℕ → ℕ → OverallReviewDto → Action OverallReview
  update_overall_review process candidate dto = do
    review ← find_overall_review process
    raise_if (not (review.candidate_id == candidate)) review_not_yours_to_edit
    raise_if (same_status review.status permanently_rejected) review_closed
    result ← edit_overall_review process review.id dto
    index_for_search overall_review review.id
    publish_created_event overall_review review.id (some result.1.id)
    pure result.0

  -- The transaction of a removal.
  unfoldable pub delete_overall_review : ℕ → ℕ → Action Unit
  delete_overall_review process id = transaction do
    remove_queue_entries overall_review id
    db ← gets (λ w. w.db)
    rows ← or_raise (P.delete (is_review_of process) db.overall_reviews) record_not_found
    put_db (record db { overall_reviews = rows })

  unfoldable pub remove_overall_review : ℕ → ℕ → Action Unit
  remove_overall_review process candidate = do
    review ← find_overall_review process
    raise_if (not (review.candidate_id == candidate)) review_not_yours_to_delete
    delete_overall_review process review.id
    remove_from_search_index overall_review review.id
