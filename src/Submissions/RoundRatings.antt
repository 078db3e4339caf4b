-- ===== src/Submissions/RoundRatings.antt =====
-- api/src/round-ratings/round-ratings.service.ts.
pub mod Edits
pub mod Created
use interview_insights.Prelude.{
  ℕ, String, Bool, true, false, not, ◌&&◌, Option, none, some, List, ◌==◌,
}
use interview_insights.Prisma.{Prisma}
use interview_insights.Schema.{
  EntityType, round_rating, Status, pending, approved, permanently_rejected, same_status,
  QueueEntry, RoundRating, RoundRatingDto, Db,
}
use interview_insights.World.Calls.{remove_review}
use interview_insights.World.{
  World, Action, Failure, forbidden, record_not_found, pure, raise_if, or_raise, gets, put_db, when,
  transaction, request, catching, draw_id, ◌>>=◌, ◌>>◌,
}
use interview_insights.Moderation.Queue.{enqueue, reenqueue, remove_queue_entries}
use interview_insights.Moderation.Lookups.{round_rating_row}
use interview_insights.Moderation.Publishing.{publish_created_event}
use interview_insights.Moderation.Indexing.{index_for_search, remove_from_search_index}
use interview_insights.Moderation.Review.{or_keep}
use interview_insights.Fraud.{TextTools}
use interview_insights.Submissions.Inserts.{insert_round_rating}

abbrev pub rating_not_yours_to_edit : Failure
rating_not_yours_to_edit = forbidden "You can only edit your own rating."

abbrev pub rating_not_yours_to_delete : Failure
rating_not_yours_to_delete = forbidden "You can only delete your own rating."

abbrev pub rating_closed : Failure
rating_closed = forbidden "This rating has been permanently rejected and can no longer be edited."

-- where: { id, roundId }
abbrev pub is_rating_of_round : ℕ → ℕ → RoundRating → Bool
is_rating_of_round round id r = r.id == id && r.round_id == round

-- data: { ...dto, status: 'pending', moderationVerdict: DbNull }
abbrev pub edited_rating : RoundRatingDto → RoundRating → RoundRating
edited_rating dto r = record r {
  content = record dto {
    technical_depth = or_keep dto.technical_depth r.content.technical_depth;
    free_text = or_keep dto.free_text r.content.free_text;
  };
  status = pending;
  moderation_verdict = none;
}

-- ReviewSearchService.removeReview, which catches every failure itself.
unfoldable pub remove_review_from_index : ℕ → Action Unit
remove_review_from_index id = catching (request (remove_review id))

module _ ⦃P : Prisma⦄ (tools : TextTools) where
  unfoldable pub create_round_rating : ℕ → ℕ → RoundRatingDto → Action RoundRating
  create_round_rating round candidate dto = do
    rating ← transaction (insert_round_rating tools round candidate dto)
    index_for_search round_rating rating.id
    publish_created_event round_rating rating.id none
    pure rating

module _ ⦃P : Prisma⦄ where
  -- findFirstOrThrow
  unfoldable pub find_round_rating : ℕ → ℕ → Action RoundRating
  find_round_rating round id = do
    found ← gets (λ w. P.find_first (is_rating_of_round round id) w.db.round_ratings)
    or_raise found record_not_found

  -- The transaction of an edit.
  unfoldable pub edit_round_rating : ℕ → RoundRatingDto → Action (RoundRating × QueueEntry)
  edit_round_rating id dto = transaction do
    db ← gets (λ w. w.db)
    rows ←
        or_raise (P.update (λ r. r.id == id) (edited_rating dto) db.round_ratings) record_not_found
    put_db (record db { round_ratings = rows })
    found ← gets (round_rating_row id)
    updated ← or_raise found record_not_found
    entry ← reenqueue round_rating id
    pure (updated, entry)

  unfoldable pub update_round_rating : ℕ → ℕ → ℕ → RoundRatingDto → Action RoundRating
  update_round_rating round id candidate dto = do
    rating ← find_round_rating round id
    raise_if (not (rating.candidate_id == candidate)) rating_not_yours_to_edit
    raise_if (same_status rating.status permanently_rejected) rating_closed
    result ← edit_round_rating id dto
    index_for_search round_rating id
    publish_created_event round_rating id (some result.1.id)
    pure result.0

  -- The transaction of a removal.
  unfoldable pub delete_round_rating : ℕ → Action Unit
  delete_round_rating id = transaction do
    remove_queue_entries round_rating id
    db ← gets (λ w. w.db)
    rows ← or_raise (P.delete (λ r. r.id == id) db.round_ratings) record_not_found
    put_db (record db { round_ratings = rows })

  unfoldable pub remove_round_rating : ℕ → ℕ → ℕ → Action Unit
  unfolding remove_review_from_index
  remove_round_rating round id candidate = do
    rating ← find_round_rating round id
    raise_if (not (rating.candidate_id == candidate)) rating_not_yours_to_delete
    delete_round_rating id
    remove_from_search_index round_rating id
    when (same_status rating.status approved) (remove_review_from_index id)
