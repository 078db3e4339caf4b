-- ===== src/Gate/Removals.antt =====
-- Removing a submission keeps the gate.
use interview_insights.Prelude.{
  ℕ, ◌≡◌, refl, inl, inr, none, some, first, drop_where, count_where, count-eq-zero, drop-by_key,
  IsKeyed-drop, arith, ◌==◌, Bool-cases, if◌then◌else◌, subst, sym,
}
use interview_insights.Prisma.{Prisma}
use interview_insights.Schema.{
  EntityType, round_rating, recruiter_rating, overall_review, RoundRating, RecruiterRating,
  OverallReview, Db,
}
use interview_insights.World.{World, ok, raised, record_not_found}
use interview_insights.Moderation.Queue.{is_for, remove_queue_entries}
use interview_insights.Submissions.Inserts.{is_review_of}
use interview_insights.Submissions.RoundRatings.{delete_round_rating}
use interview_insights.Submissions.RecruiterRatings.{delete_recruiter_rating}
use interview_insights.Submissions.OverallReviews.{delete_overall_review}
use interview_insights.Gate.{Grows}
use interview_insights.Gate.Rules.{Gated, Keeps}
use interview_insights.Gate.Closings.{IsGated-removed}
use interview_insights.Gate.Steps.{Puts}
use interview_insights.Gate.Statuses.{
  Puts-round_rating_removed, Puts-recruiter_rating_removed, Puts-overall_review_removed,
}

-- The queue without the entries of a submission.
abbrev without_entries : EntityType → ℕ → World → Db
without_entries t id w = record w.db { queue = drop_where (is_for t id) w.db.queue }

module _ ⦃P : Prisma⦄ (id : ℕ) where
  abbrev after_round_rating_removal : World → World
  after_round_rating_removal w = record w {
    db = record (without_entries round_rating id w) {
      round_ratings = drop_where (λ r. r.id == id) w.db.round_ratings;
    };
  }

  delete_round_rating-cases :
      (w : World)
      → delete_round_rating id w ≡ (
          if count_where (λ r. r.id == id) w.db.round_ratings == 0
          then (raised record_not_found, w)
          else (ok tt, after_round_rating_removal w))
  unfolding delete_round_rating remove_queue_entries
  delete_round_rating-cases w = ground (
    arith,
    P.delete_many_law (is_for round_rating id) w.db.queue,
    P.delete_law (λ (r : RoundRating). r.id == id) w.db.round_ratings,
  )

  round_rating_removal-Gated : (w : World) → Gated w → Gated (after_round_rating_removal w)
  round_rating_removal-Gated w g =
      IsGated-removed round_rating id w.db (after_round_rating_removal w).db w.issued w.issued g
        (λ i h. h) refl
        (Puts-round_rating_removed w.db (drop_where (is_for round_rating id) w.db.queue) id)
        g.reviews g.processes

  delete_round_rating_at :
      (w : World)
      → Gated w
      → let out = delete_round_rating id w in Gated out.1 × Grows w.issued out.1.issued
  delete_round_rating_at w g =
      elim (Bool-cases (count_where (λ r. r.id == id) w.db.round_ratings == 0)) [
        | inl z ↦ rw (delete_round_rating-cases w, z) (g, λ i h. h)
        | inr z ↦ rw (delete_round_rating-cases w, z) (round_rating_removal-Gated w g, λ i h. h)
      ]

  pub Keeps-delete_round_rating : Keeps (delete_round_rating id)
  Keeps-delete_round_rating = record { at = delete_round_rating_at }

module _ ⦃P : Prisma⦄ (id : ℕ) where
  abbrev after_recruiter_rating_removal : World → World
  after_recruiter_rating_removal w = record w {
    db = record (without_entries recruiter_rating id w) {
      recruiter_ratings = drop_where (λ r. r.id == id) w.db.recruiter_ratings;
    };
  }

  delete_recruiter_rating-cases :
      (w : World)
      → delete_recruiter_rating id w ≡ (
          if count_where (λ r. r.id == id) w.db.recruiter_ratings == 0
          then (raised record_not_found, w)
          else (ok tt, after_recruiter_rating_removal w))
  unfolding delete_recruiter_rating remove_queue_entries
  delete_recruiter_rating-cases w = ground (
    arith,
    P.delete_many_law (is_for recruiter_rating id) w.db.queue,
    P.delete_law (λ (r : RecruiterRating). r.id == id) w.db.recruiter_ratings,
  )

  recruiter_rating_removal-Gated : (w : World) → Gated w → Gated (after_recruiter_rating_removal w)
  recruiter_rating_removal-Gated w g =
      IsGated-removed recruiter_rating id w.db (after_recruiter_rating_removal w).db w.issued
        w.issued g (λ i h. h) refl
        (Puts-recruiter_rating_removed w.db (drop_where (is_for recruiter_rating id) w.db.queue) id)
        g.reviews g.processes

  delete_recruiter_rating_at :
      (w : World)
      → Gated w
      → let out = delete_recruiter_rating id w in Gated out.1 × Grows w.issued out.1.issued
  delete_recruiter_rating_at w g =
      elim (Bool-cases (count_where (λ r. r.id == id) w.db.recruiter_ratings == 0)) [
        | inl z ↦ rw (delete_recruiter_rating-cases w, z) (g, λ i h. h)
        | inr z ↦
            rw (delete_recruiter_rating-cases w, z) (recruiter_rating_removal-Gated w g, λ i h. h)
      ]

  pub Keeps-delete_recruiter_rating : Keeps (delete_recruiter_rating id)
  Keeps-delete_recruiter_rating = record { at = delete_recruiter_rating_at }

module _ ⦃P : Prisma⦄ (process : ℕ) where
  abbrev after_overall_review_removal : ℕ → World → World
  after_overall_review_removal id w = record w {
    db = record (without_entries overall_review id w) {
      overall_reviews = drop_where (is_review_of process) w.db.overall_reviews;
    };
  }

  delete_overall_review-eq :
      (w : World) (r : OverallReview)
      → first (is_review_of process) w.db.overall_reviews ≡ some r
      → delete_overall_review process r.id w ≡ (ok tt, after_overall_review_removal r.id w)
  unfolding delete_overall_review remove_queue_entries
  delete_overall_review-eq w r s = ground (
    arith,
    P.delete_many_law (is_for overall_review r.id) w.db.queue,
    P.delete_law (is_review_of process) w.db.overall_reviews,
    count-eq-zero (is_review_of process) w.db.overall_reviews,
  )

  -- The review of the process is the one with its id.
  Puts-overall_review_deleted :
      (w : World) (r : OverallReview)
      → first (is_review_of process) w.db.overall_reviews ≡ some r
      → Gated w
      → Puts overall_review r.id none w.db (after_overall_review_removal r.id w).db
  Puts-overall_review_deleted w r s g =
      subst
        (λ rows. Puts overall_review r.id none w.db (record w.db {
          queue = drop_where (is_for overall_review r.id) w.db.queue;
          overall_reviews = rows;
        }))
        (sym (
          drop-by_key (λ (x : OverallReview). x.id) (λ x. x.process_id) process w.db.overall_reviews
            r g.reviews g.processes s))
        (Puts-overall_review_removed w.db (drop_where (is_for overall_review r.id) w.db.queue) r.id)

  -- The removal of the review that the process has.
  pub delete_overall_review-Gated :
      (w : World) (r : OverallReview)
      → first (is_review_of process) w.db.overall_reviews ≡ some r
      → Gated w
      → let out = delete_overall_review process r.id w in Gated out.1 × Grows w.issued out.1.issued
  delete_overall_review-Gated w r s g = rw (delete_overall_review-eq w r s) (
    IsGated-removed overall_review r.id w.db (after_overall_review_removal r.id w).db w.issued
        w.issued g (λ i h. h) refl (Puts-overall_review_deleted w r s g)
        (IsKeyed-drop (λ (x : OverallReview). x.id) (is_review_of process) w.db.overall_reviews
          g.reviews)
        (IsKeyed-drop (λ (x : OverallReview). x.process_id) (is_review_of process)
          w.db.overall_reviews g.processes),
    λ i h. h,
  )
