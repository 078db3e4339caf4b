-- ===== src/Moderation/Lookups.antt =====
-- The reads of moderation.service.ts by id, and the joins of their `include` clauses. A row that a
-- foreign key names is there; a read without it fails.
use interview_insights.Prelude.{ℕ, Bool, Option, is_some, ◌==◌}
use interview_insights.Prisma.{Prisma}
use interview_insights.Schema.{
  EntityType, round_rating, recruiter_rating, overall_review, company, RoundRating, RecruiterRating,
  OverallReview, Company, InterviewProcess,
}
use interview_insights.World.{World, Action, Failure, error, or_raise, gets, ◌>>=◌}

abbrev pub broken_join : Failure
broken_join = error "Inconsistent query result"

module _ ⦃P : Prisma⦄ where
  abbrev pub round_rating_row : ℕ → World → Option RoundRating
  round_rating_row id w = P.find_first (λ r. r.id == id) w.db.round_ratings

  abbrev pub recruiter_rating_row : ℕ → World → Option RecruiterRating
  recruiter_rating_row id w = P.find_first (λ r. r.id == id) w.db.recruiter_ratings

  abbrev pub overall_review_row : ℕ → World → Option OverallReview
  overall_review_row id w = P.find_first (λ r. r.id == id) w.db.overall_reviews

  abbrev pub company_row : ℕ → World → Option Company
  company_row id w = P.find_first (λ c. c.id == id) w.db.companies

  -- include: { process: true }
  unfoldable pub process_of : ℕ → Action InterviewProcess
  process_of id = do
    found ← gets (λ w. P.find_first (λ p. p.id == id) w.db.processes)
    or_raise found broken_join

  -- include: { round: { include: { process: true } } }
  unfoldable pub process_of_round : ℕ → Action InterviewProcess
  process_of_round id = do
    found ← gets (λ w. P.find_first (λ r. r.id == id) w.db.rounds)
    round ← or_raise found broken_join
    process_of round.process_id

  -- include: { recruiterInteraction: { include: { process: true } } }
  unfoldable pub process_of_interaction : ℕ → Action InterviewProcess
  process_of_interaction id = do
    found ← gets (λ w. P.find_first (λ i. i.id == id) w.db.recruiter_interactions)
    interaction ← or_raise found broken_join
    process_of interaction.process_id

  -- `entityExists`
  unfoldable pub entity_exists : EntityType → ℕ → World → Bool
  entity_exists round_rating id w = is_some (round_rating_row id w)
  entity_exists recruiter_rating id w = is_some (recruiter_rating_row id w)
  entity_exists overall_review id w = is_some (overall_review_row id w)
  entity_exists company id w = is_some (company_row id w)
