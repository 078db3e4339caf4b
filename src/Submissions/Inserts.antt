-- ===== src/Submissions/Inserts.antt =====
-- The writes that round-ratings.service.ts, recruiter-ratings.service.ts, overall-reviews.service.ts
-- and bulk-process-submission.service.ts share: the fraud checks, the row and its queue entry, in a
-- transaction of the caller's. A second rating by the same candidate, and a second review of a
-- process, violate a unique key.
pub mod RoundRatings
pub mod RecruiterRatings
pub mod OverallReviews
use interview_insights.Prelude.{ℕ, String, Bool, not, ◌&&◌, Option, none, some, ◌==◌}
use interview_insights.Prisma.{Prisma}
use interview_insights.Schema.{
  round_rating, recruiter_rating, overall_review, pending, RoundRating, RoundRatingDto,
  RecruiterRating, RecruiterRatingDto, OverallReview, OverallReviewDto, Db,
}
use interview_insights.World.{
  World, Action, unique_violation, pure, raise_if, gets, put_db, draw_id, ◌>>=◌, ◌>>◌,
}
use interview_insights.Moderation.Queue.{enqueue}
use interview_insights.Fraud.{TextTools, detect_flag_reason}

-- @@unique([roundId, candidateId])
abbrev pub is_rating_by : ℕ → ℕ → RoundRating → Bool
is_rating_by round candidate r = r.round_id == round && r.candidate_id == candidate

-- @@unique([recruiterInteractionId, candidateId])
abbrev pub is_recruiter_rating_by : ℕ → ℕ → RecruiterRating → Bool
is_recruiter_rating_by interaction candidate r =
    r.recruiter_interaction_id == interaction && r.candidate_id == candidate

-- @unique on processId, and where: { processId }
abbrev pub is_review_of : ℕ → OverallReview → Bool
is_review_of process r = r.process_id == process

-- The rows that `create` makes.
abbrev pub round_rating_of : ℕ → ℕ → ℕ → RoundRatingDto → ℕ → RoundRating
round_rating_of id round candidate dto now = record {
  id = id;
  round_id = round;
  candidate_id = candidate;
  content = dto;
  status = pending;
  moderation_verdict = none;
  created_at = now;
}

abbrev pub recruiter_rating_of : ℕ → ℕ → ℕ → RecruiterRatingDto → ℕ → RecruiterRating
recruiter_rating_of id interaction candidate dto now = record {
  id = id;
  recruiter_interaction_id = interaction;
  candidate_id = candidate;
  content = dto;
  status = pending;
  moderation_verdict = none;
  created_at = now;
}

abbrev pub overall_review_of : ℕ → ℕ → ℕ → OverallReviewDto → ℕ → OverallReview
overall_review_of id process candidate dto now = record {
  id = id;
  process_id = process;
  candidate_id = candidate;
  content = dto;
  status = pending;
  moderation_verdict = none;
  created_at = now;
}

module _ ⦃P : Prisma⦄ (tools : TextTools) where
  unfoldable pub insert_round_rating : ℕ → ℕ → RoundRatingDto → Action RoundRating
  insert_round_rating round candidate dto = do
    flag_reason ← gets (detect_flag_reason tools candidate round_rating dto.free_text)
    taken ← gets (λ w. P.count (is_rating_by round candidate) w.db.round_ratings)
    raise_if (not (taken == 0)) unique_violation
    id ← draw_id
    now ← gets (λ w. w.now)
    db ← gets (λ w. w.db)
    let row = round_rating_of id round candidate dto now
    put_db (record db { round_ratings = P.create row db.round_ratings })
    enqueue round_rating id flag_reason
    pure row

  unfoldable pub insert_recruiter_rating : ℕ → ℕ → RecruiterRatingDto → Action RecruiterRating
  insert_recruiter_rating interaction candidate dto = do
    flag_reason ← gets (detect_flag_reason tools candidate recruiter_rating dto.free_text)
    taken ←
        gets (λ w. P.count (is_recruiter_rating_by interaction candidate) w.db.recruiter_ratings)
    raise_if (not (taken == 0)) unique_violation
    id ← draw_id
    now ← gets (λ w. w.now)
    db ← gets (λ w. w.db)
    let row = recruiter_rating_of id interaction candidate dto now
    put_db (record db { recruiter_ratings = P.create row db.recruiter_ratings })
    enqueue recruiter_rating id flag_reason
    pure row

  unfoldable pub insert_overall_review : ℕ → ℕ → OverallReviewDto → Action OverallReview
  insert_overall_review process candidate dto = do
    flag_reason ← gets (detect_flag_reason tools candidate overall_review dto.review_text)
    taken ← gets (λ w. P.count (is_review_of process) w.db.overall_reviews)
    raise_if (not (taken == 0)) unique_violation
    id ← draw_id
    now ← gets (λ w. w.now)
    db ← gets (λ w. w.db)
    let row = overall_review_of id process candidate dto now
    put_db (record db { overall_reviews = P.create row db.overall_reviews })
    enqueue overall_review id flag_reason
    pure row
