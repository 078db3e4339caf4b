-- ===== src/Submissions/Bulk.antt =====
-- api/src/bulk-process-submission/bulk-process-submission.service.ts: a process with its rounds,
-- interactions, ratings and review, in one transaction.
use interview_insights.Prelude.{ℕ, String, Option, none, some, List, [], ◌∷◌, ◌++◌}
use interview_insights.Prisma.{Prisma}
use interview_insights.Schema.{
  EntityType, round_rating, recruiter_rating, overall_review, RoundDto, RoundRatingDto,
  RecruiterRatingDto, OverallReviewDto, InterviewProcess,
}
use interview_insights.World.{Action, pure, transaction, ◌>>=◌, ◌>>◌}
use interview_insights.Fraud.{TextTools}
use interview_insights.Moderation.Publishing.{publish_created_event}
use interview_insights.Moderation.Indexing.{index_for_search}
use interview_insights.Submissions.Inserts.{
  insert_round_rating, insert_recruiter_rating, insert_overall_review,
}
use interview_insights.Submissions.RoundTypes.{validate_type_metadata}
use interview_insights.Submissions.Processes.{
  ProcessDto, IdentifierTools, assert_company_approved, insert_process, insert_round,
  find_or_create, insert_interaction,
}

-- CreateBulkRoundDto
pub record BulkRoundDto : Type 0 where
  pub round : RoundDto
  pub rating : Option RoundRatingDto

-- CreateBulkRecruiterInteractionDto
pub record BulkInteractionDto : Type 0 where
  pub recruiter_identifier : String
  pub rating : Option RecruiterRatingDto

-- CreateBulkProcessDto. An absent array is an empty one.
pub record BulkDto : Type 0 where
  pub process : ProcessDto
  pub rounds : List BulkRoundDto
  pub recruiter_interactions : List BulkInteractionDto
  pub overall_review : Option OverallReviewDto

-- What the transaction answers: the process, and the ids of what is to be announced.
pub record Submitted : Type 0 where
  pub process : InterviewProcess
  pub round_rating_ids : List ℕ
  pub recruiter_rating_ids : List ℕ
  pub overall_review_id : List ℕ

module _ ⦃P : Prisma⦄ where
  -- The loops after the transaction.
  unfoldable pub announce : EntityType → List ℕ → Action Unit
  announce t [] = pure tt
  announce t (id ∷ rest) = do
    index_for_search t id
    publish_created_event t id none
    announce t rest

module _ ⦃P : Prisma⦄ (tools : TextTools) (ids : IdentifierTools) (candidate : ℕ) where
  unfoldable pub rate_round : ℕ → Option RoundRatingDto → Action (List ℕ)
  rate_round round none = pure []
  rate_round round (some dto) = do
    rating ← insert_round_rating tools round candidate dto
    pure (rating.id ∷ [])

  unfoldable pub rate_interaction : ℕ → Option RecruiterRatingDto → Action (List ℕ)
  rate_interaction interaction none = pure []
  rate_interaction interaction (some dto) = do
    rating ← insert_recruiter_rating tools interaction candidate dto
    pure (rating.id ∷ [])

  unfoldable pub review_process : ℕ → Option OverallReviewDto → Action (List ℕ)
  review_process process none = pure []
  review_process process (some dto) = do
    review ← insert_overall_review tools process candidate dto
    pure (review.id ∷ [])

  -- The body of the loop over the rounds.
  unfoldable pub submit_round : ℕ → BulkRoundDto → Action (List ℕ)
  unfolding rate_round
  submit_round process dto = do
    validate_type_metadata dto.round.round_type dto.round.type_metadata
    round ← insert_round process dto.round
    rate_round round.id dto.rating

  unfoldable pub submit_rounds : ℕ → List BulkRoundDto → Action (List ℕ)
  unfolding submit_round
  submit_rounds process [] = pure []
  submit_rounds process (dto ∷ rest) = do
    these ← submit_round process dto
    those ← submit_rounds process rest
    pure (these ++ those)

  -- The body of the loop over the interactions.
  unfoldable pub submit_interaction : ℕ → ℕ → BulkInteractionDto → Action (List ℕ)
  unfolding rate_interaction
  submit_interaction company process dto = do
    recruiter ← find_or_create ids company dto.recruiter_identifier
    interaction ← insert_interaction process recruiter.id
    rate_interaction interaction.id dto.rating

  unfoldable pub submit_interactions : ℕ → ℕ → List BulkInteractionDto → Action (List ℕ)
  unfolding submit_interaction
  submit_interactions company process [] = pure []
  submit_interactions company process (dto ∷ rest) = do
    these ← submit_interaction company process dto
    those ← submit_interactions company process rest
    pure (these ++ those)

  -- The transaction.
  unfoldable pub submit_all : ℕ → BulkDto → Action Submitted
  unfolding submit_rounds submit_interactions review_process
  submit_all company dto = do
    assert_company_approved company
    process ← insert_process company candidate dto.process
    round_ids ← submit_rounds process.id dto.rounds
    recruiter_ids ← submit_interactions company process.id dto.recruiter_interactions
    review_id ← review_process process.id dto.overall_review
    pure (record {
      process = process;
      round_rating_ids = round_ids;
      recruiter_rating_ids = recruiter_ids;
      overall_review_id = review_id;
    })

  unfoldable pub create_bulk : ℕ → BulkDto → Action InterviewProcess
  unfolding submit_all announce
  create_bulk company dto = do
    done ← transaction (submit_all company dto)
    announce round_rating done.round_rating_ids
    announce recruiter_rating done.recruiter_rating_ids
    announce overall_review done.overall_review_id
    pure done.process
