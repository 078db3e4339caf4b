-- ===== src/Submissions/RecruiterRatings.antt =====
-- api/src/recruiter-ratings/recruiter-ratings.service.ts.
use interview_insights.Prelude.{ℕ, Bool, not, ◌&&◌, some, ◌==◌}
use interview_insights.Prelude.{none}
use interview_insights.Prisma.{Prisma}
use interview_insights.Schema.{
  recruiter_rating, pending, permanently_rejected, same_status, QueueEntry, RecruiterRating,
  RecruiterRatingDto,
}
use interview_insights.World.{
  Action, record_not_found, pure, raise_if, or_raise, gets, put_db, transaction, ◌>>=◌, ◌>>◌,
}
use interview_insights.Moderation.Queue.{reenqueue, remove_queue_entries}
use interview_insights.Moderation.Lookups.{recruiter_rating_row}
use interview_insights.Moderation.Publishing.{publish_created_event}
use interview_insights.Moderation.Indexing.{index_for_search, remove_from_search_index}
use interview_insights.Moderation.Review.{or_keep}
use interview_insights.Fraud.{TextTools}
use interview_insights.Submissions.Inserts.{insert_recruiter_rating}
use interview_insights.Submissions.RoundRatings.{
  rating_not_yours_to_edit, rating_not_yours_to_delete, rating_closed,
}

-- where: { id, recruiterInteractionId }
abbrev pub is_rating_of_interaction : ℕ → ℕ → RecruiterRating → Bool
is_rating_of_interaction interaction id r = r.id == id && r.recruiter_interaction_id == interaction

-- data: { ...dto, status: 'pending', moderationVerdict: DbNull }
abbrev pub edited_recruiter_rating : RecruiterRatingDto → RecruiterRating → RecruiterRating
edited_recruiter_rating dto r = record r {
  content = record dto {
    rejection_message_authenticity =
        or_keep dto.rejection_message_authenticity r.content.rejection_message_authenticity;
    free_text = or_keep dto.free_text r.content.free_text;
  };
  status = pending;
  moderation_verdict = none;
}

module _ ⦃P : Prisma⦄ (tools : TextTools) where
  unfoldable pub create_recruiter_rating : ℕ → ℕ → RecruiterRatingDto → Action RecruiterRating
  create_recruiter_rating interaction candidate dto = do
    rating ← transaction (insert_recruiter_rating tools interaction candidate dto)
    index_for_search recruiter_rating rating.id
    publish_created_event recruiter_rating rating.id none
    pure rating

module _ ⦃P : Prisma⦄ where
  -- findFirstOrThrow
  unfoldable pub find_recruiter_rating : ℕ → ℕ → Action RecruiterRating
  find_recruiter_rating interaction id = do
    found ←
        gets (λ w. P.find_first (is_rating_of_interaction interaction id) w.db.recruiter_ratings)
    or_raise found record_not_found

  -- The transaction of an edit.
  unfoldable pub edit_recruiter_rating :
      ℕ → RecruiterRatingDto → Action (RecruiterRating × QueueEntry)
  edit_recruiter_rating id dto = transaction do
    db ← gets (λ w. w.db)
    rows ←
        or_raise (P.update (λ r. r.id == id) (edited_recruiter_rating dto) db.recruiter_ratings)
          record_not_found
    put_db (record db { recruiter_ratings = rows })
    found ← gets (recruiter_rating_row id)
    updated ← or_raise found record_not_found
    entry ← reenqueue recruiter_rating id
    pure (updated, entry)

  unfoldable pub update_recruiter_rating : ℕ → ℕ → ℕ → RecruiterRatingDto → Action RecruiterRating
  update_recruiter_rating interaction id candidate dto = do
    rating ← find_recruiter_rating interaction id
    raise_if (not (rating.candidate_id == candidate)) rating_not_yours_to_edit
    raise_if (same_status rating.status permanently_rejected) rating_closed
    result ← edit_recruiter_rating id dto
    index_for_search recruiter_rating id
    publish_created_event recruiter_rating id (some result.1.id)
    pure result.0

  -- The transaction of a removal.
  unfoldable pub delete_recruiter_rating : ℕ → Action Unit
  delete_recruiter_rating id = transaction do
    remove_queue_entries recruiter_rating id
    db ← gets (λ w. w.db)
    rows ← or_raise (P.delete (λ r. r.id == id) db.recruiter_ratings) record_not_found
    put_db (record db { recruiter_ratings = rows })

  unfoldable pub remove_recruiter_rating : ℕ → ℕ → ℕ → Action Unit
  remove_recruiter_rating interaction id candidate = do
    rating ← find_recruiter_rating interaction id
    raise_if (not (rating.candidate_id == candidate)) rating_not_yours_to_delete
    delete_recruiter_rating id
    remove_from_search_index recruiter_rating id
