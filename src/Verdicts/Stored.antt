-- ===== src/Verdicts/Stored.antt =====
-- The verdict on a review, which the consumer stores in the row of the review.
use interview_insights.Prelude.{
  ℕ, String, ◌≡◌, refl, some, is_some, change, count-eq-zero, first, first-change_self, arith, ◌==◌,
  if◌then◌else◌, Option-cases,
}
use interview_insights.Prisma.{Prisma}
use interview_insights.Schema.{Db, RoundRating, RecruiterRating, OverallReview}
use interview_insights.World.{World, ok, raised, record_not_found}
use interview_insights.Moderation.Entities.{status_of}
use interview_insights.Moderation.Review.Outcomes.{with_db}
use interview_insights.Verdicts.{
  Triageable, round_rating_verdict, recruiter_rating_verdict, overall_review_verdict,
  entity_type_for, store_verdict,
}

-- The tables with another verdict for one review.
unfoldable pub with_verdict : Triageable → ℕ → String → Db → Db
with_verdict round_rating_verdict id v db = record db {
  round_ratings =
      change (λ r. r.id == id) (λ r. record r { moderation_verdict = some v }) db.round_ratings;
}
with_verdict recruiter_rating_verdict id v db = record db {
  recruiter_ratings =
      change (λ r. r.id == id) (λ r. record r { moderation_verdict = some v }) db.recruiter_ratings;
}
with_verdict overall_review_verdict id v db = record db {
  overall_reviews =
      change (λ r. r.id == id) (λ r. record r { moderation_verdict = some v }) db.overall_reviews;
}

-- A verdict leaves the queue, the audit trail and the status of the review alone.
pub queue-with_verdict :
    (t : Triageable) (id : ℕ) (v : String) (db : Db) → (with_verdict t id v db).queue ≡ db.queue
unfolding with_verdict
queue-with_verdict round_rating_verdict id v db = refl
queue-with_verdict _ id v db = refl

pub audits-with_verdict :
    (t : Triageable) (id : ℕ) (v : String) (db : Db) → (with_verdict t id v db).audits ≡ db.audits
unfolding with_verdict
audits-with_verdict round_rating_verdict id v db = refl
audits-with_verdict _ id v db = refl

pub status_of-with_verdict :
    (t : Triageable) (id : ℕ) (v : String) (db : Db)
    → status_of (entity_type_for t) id (with_verdict t id v db)
      ≡ status_of (entity_type_for t) id db
unfolding with_verdict status_of entity_type_for
status_of-with_verdict round_rating_verdict id v db = ground (
  arith,
  Option-cases (first (λ (r : RoundRating). r.id == id) db.round_ratings),
  first-change_self (λ (r : RoundRating). r.id == id)
      (λ r. record r { moderation_verdict = some v }) db.round_ratings (λ x. refl),
)
status_of-with_verdict recruiter_rating_verdict id v db = ground (
  arith,
  Option-cases (first (λ (r : RecruiterRating). r.id == id) db.recruiter_ratings),
  first-change_self (λ (r : RecruiterRating). r.id == id)
      (λ r. record r { moderation_verdict = some v }) db.recruiter_ratings (λ x. refl),
)
status_of-with_verdict overall_review_verdict id v db = ground (
  arith,
  Option-cases (first (λ (r : OverallReview). r.id == id) db.overall_reviews),
  first-change_self (λ (r : OverallReview). r.id == id)
      (λ r. record r { moderation_verdict = some v }) db.overall_reviews (λ x. refl),
)

module _ ⦃P : Prisma⦄ where
  pub store_verdict-eq :
      (t : Triageable) (id : ℕ) (v : String) (w : World)
      → store_verdict t id v w ≡ (
          if is_some (status_of (entity_type_for t) id w.db)
          then (ok tt, with_db w (with_verdict t id v w.db))
          else (raised record_not_found, w))
  unfolding store_verdict status_of with_verdict entity_type_for
  store_verdict-eq round_rating_verdict id v w = ground (
    arith,
    P.update_law (λ (r : RoundRating). r.id == id) (λ r. record r { moderation_verdict = some v })
        w.db.round_ratings,
    count-eq-zero (λ (r : RoundRating). r.id == id) w.db.round_ratings,
  )
  store_verdict-eq recruiter_rating_verdict id v w = ground (
    arith,
    P.update_law (λ (r : RecruiterRating). r.id == id)
        (λ r. record r { moderation_verdict = some v }) w.db.recruiter_ratings,
    count-eq-zero (λ (r : RecruiterRating). r.id == id) w.db.recruiter_ratings,
  )
  store_verdict-eq overall_review_verdict id v w = ground (
    arith,
    P.update_law (λ (r : OverallReview). r.id == id) (λ r. record r { moderation_verdict = some v })
        w.db.overall_reviews,
    count-eq-zero (λ (r : OverallReview). r.id == id) w.db.overall_reviews,
  )
