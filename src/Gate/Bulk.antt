-- ===== src/Gate/Bulk.antt =====
-- A bulk submission keeps the gate.
use interview_insights.Prelude.{ℕ, Option, none, some, List, [], ◌∷◌, ◌++◌}
use interview_insights.Prisma.{Prisma}
use interview_insights.Schema.{
  EntityType, round_rating, recruiter_rating, overall_review, RoundRatingDto, RecruiterRatingDto,
  OverallReviewDto, InterviewProcess,
}
use interview_insights.World.{Action, pure, transaction, ◌>>=◌, ◌>>◌}
use interview_insights.World.Quiet.{IsQuiet, IsQuiet-bind, quiet_rules}
use interview_insights.Fraud.{TextTools}
use interview_insights.Submissions.Quiet.{index_for_search-IsQuiet}
use interview_insights.Moderation.Review.BestEffort.{publish_created_event-IsQuiet}
use interview_insights.Moderation.Publishing.{publish_created_event}
use interview_insights.Moderation.Indexing.{index_for_search}
use interview_insights.Submissions.Inserts.{
  insert_round_rating, insert_recruiter_rating, insert_overall_review,
}
use interview_insights.Submissions.RoundTypes.{validate_type_metadata}
use interview_insights.Submissions.Processes.{
  IdentifierTools, assert_company_approved, insert_process, insert_round, find_or_create,
  insert_interaction,
}
use interview_insights.Submissions.Bulk.{
  BulkRoundDto, BulkInteractionDto, BulkDto, Submitted, rate_round, rate_interaction,
  review_process, submit_round, submit_rounds, submit_interaction, submit_interactions, submit_all,
  announce, create_bulk,
}
use interview_insights.Gate.Rules.{
  Keeps, Guards, Keeps-quiet, Keeps-bind, Keeps-transaction, Guards-Keeps, Guards-bind,
}
use interview_insights.Gate.Inserts.{
  Guards-insert_round_rating, Guards-insert_recruiter_rating, Guards-insert_overall_review,
}
use interview_insights.Gate.Structure.{
  Guards-quiet, Keeps-insert_process, Keeps-insert_round, Keeps-insert_interaction,
  Keeps-find_or_create, assert_company_approved-IsQuiet, validate-IsQuiet,
}

Guards-pure : {A : Type 0} (a : A) → Guards (pure a)
Guards-pure a = Guards-quiet (pure a) (search quiet_rules)

module _ ⦃P : Prisma⦄ where
  announce-IsQuiet : (t : EntityType) (ids : List ℕ) → IsQuiet (announce t ids)
  unfolding announce
  announce-IsQuiet t [] = search quiet_rules
  announce-IsQuiet t (id ∷ rest) =
      IsQuiet-bind (λ _. publish_created_event t id none >> announce t rest)
        (λ _.
          IsQuiet-bind (λ _. announce t rest) (λ _. announce-IsQuiet t rest)
            (publish_created_event t id none) (publish_created_event-IsQuiet t id none))
        (index_for_search t id) (index_for_search-IsQuiet t id)

  module _ (tools : TextTools) (ids : IdentifierTools) (candidate : ℕ) where
    Guards-rate_round :
        (round : ℕ) (o : Option RoundRatingDto) → Guards (rate_round tools ids candidate round o)
    unfolding rate_round
    Guards-rate_round round none = Guards-pure []
    Guards-rate_round round (some dto) =
        Guards-bind (λ r. pure (r.id ∷ [])) (λ r. Guards-pure (r.id ∷ []))
          (insert_round_rating tools round candidate dto)
          (Guards-insert_round_rating tools round candidate dto)

    Guards-rate_interaction :
        (interaction : ℕ) (o : Option RecruiterRatingDto)
        → Guards (rate_interaction tools ids candidate interaction o)
    unfolding rate_interaction
    Guards-rate_interaction interaction none = Guards-pure []
    Guards-rate_interaction interaction (some dto) =
        Guards-bind (λ r. pure (r.id ∷ [])) (λ r. Guards-pure (r.id ∷ []))
          (insert_recruiter_rating tools interaction candidate dto)
          (Guards-insert_recruiter_rating tools interaction candidate dto)

    Guards-review_process :
        (process : ℕ) (o : Option OverallReviewDto)
        → Guards (review_process tools ids candidate process o)
    unfolding review_process
    Guards-review_process process none = Guards-pure []
    Guards-review_process process (some dto) =
        Guards-bind (λ r. pure (r.id ∷ [])) (λ r. Guards-pure (r.id ∷ []))
          (insert_overall_review tools process candidate dto)
          (Guards-insert_overall_review tools process candidate dto)

    Guards-submit_round :
        (process : ℕ) (dto : BulkRoundDto) → Guards (submit_round tools ids candidate process dto)
    unfolding submit_round
    Guards-submit_round process dto =
        Guards-bind
          (λ _. insert_round process dto.round >>= λ round.
            rate_round tools ids candidate round.id dto.rating)
          (λ _.
            Guards-bind (λ round. rate_round tools ids candidate round.id dto.rating)
              (λ round. Guards-rate_round round.id dto.rating) (insert_round process dto.round)
              (Guards-Keeps _ (Keeps-insert_round process dto.round)))
          (validate_type_metadata dto.round.round_type dto.round.type_metadata)
          (Guards-quiet _ (validate-IsQuiet dto.round.round_type dto.round.type_metadata))

    Guards-submit_rounds :
        (process : ℕ) (dtos : List BulkRoundDto)
        → Guards (submit_rounds tools ids candidate process dtos)
    unfolding submit_rounds
    Guards-submit_rounds process [] = Guards-pure []
    Guards-submit_rounds process (dto ∷ rest) =
        Guards-bind
          (λ these.
            submit_rounds tools ids candidate process rest >>= λ those. pure (these ++ those))
          (λ these.
            Guards-bind (λ those. pure (these ++ those)) (λ those. Guards-pure (these ++ those))
              (submit_rounds tools ids candidate process rest) (Guards-submit_rounds process rest))
          (submit_round tools ids candidate process dto) (Guards-submit_round process dto)

    Guards-submit_interaction :
        (company process : ℕ) (dto : BulkInteractionDto)
        → Guards (submit_interaction tools ids candidate company process dto)
    unfolding submit_interaction
    Guards-submit_interaction company process dto =
        Guards-bind
          (λ recruiter. insert_interaction process recruiter.id >>= λ i.
            rate_interaction tools ids candidate i.id dto.rating)
          (λ recruiter.
            Guards-bind (λ i. rate_interaction tools ids candidate i.id dto.rating)
              (λ i. Guards-rate_interaction i.id dto.rating)
              (insert_interaction process recruiter.id)
              (Guards-Keeps _ (Keeps-insert_interaction process recruiter.id)))
          (find_or_create ids company dto.recruiter_identifier)
          (Guards-Keeps _ (Keeps-find_or_create ids company dto.recruiter_identifier))

    Guards-submit_interactions :
        (company process : ℕ) (dtos : List BulkInteractionDto)
        → Guards (submit_interactions tools ids candidate company process dtos)
    unfolding submit_interactions
    Guards-submit_interactions company process [] = Guards-pure []
    Guards-submit_interactions company process (dto ∷ rest) =
        Guards-bind
          (λ these. submit_interactions tools ids candidate company process rest >>= λ those.
            pure (these ++ those))
          (λ these.
            Guards-bind (λ those. pure (these ++ those)) (λ those. Guards-pure (these ++ those))
              (submit_interactions tools ids candidate company process rest)
              (Guards-submit_interactions company process rest))
          (submit_interaction tools ids candidate company process dto)
          (Guards-submit_interaction company process dto)

    module _ (company : ℕ) (dto : BulkDto) where
      abbrev submitted : InterviewProcess → List ℕ → List ℕ → List ℕ → Submitted
      submitted p rs is os = record {
        process = p;
        round_rating_ids = rs;
        recruiter_rating_ids = is;
        overall_review_id = os;
      }

      abbrev after_rounds : InterviewProcess → List ℕ → Action Submitted
      after_rounds p rs = do
        is ← submit_interactions tools ids candidate company p.id dto.recruiter_interactions
        os ← review_process tools ids candidate p.id dto.overall_review
        pure (submitted p rs is os)

      Guards-after_rounds : (p : InterviewProcess) (rs : List ℕ) → Guards (after_rounds p rs)
      Guards-after_rounds p rs =
          Guards-bind
            (λ is. review_process tools ids candidate p.id dto.overall_review >>= λ os.
              pure (submitted p rs is os))
            (λ is.
              Guards-bind (λ os. pure (submitted p rs is os))
                (λ os. Guards-pure (submitted p rs is os))
                (review_process tools ids candidate p.id dto.overall_review)
                (Guards-review_process p.id dto.overall_review))
            (submit_interactions tools ids candidate company p.id dto.recruiter_interactions)
            (Guards-submit_interactions company p.id dto.recruiter_interactions)

      Guards-submit_all : Guards (submit_all tools ids candidate company dto)
      unfolding submit_all
      Guards-submit_all =
          Guards-bind
            (λ _. insert_process company candidate dto.process >>= λ p.
              submit_rounds tools ids candidate p.id dto.rounds >>= after_rounds p)
            (λ _.
              Guards-bind
                (λ p. submit_rounds tools ids candidate p.id dto.rounds >>= after_rounds p)
                (λ p.
                  Guards-bind (after_rounds p) (Guards-after_rounds p)
                    (submit_rounds tools ids candidate p.id dto.rounds)
                    (Guards-submit_rounds p.id dto.rounds))
                (insert_process company candidate dto.process)
                (Guards-Keeps _ (Keeps-insert_process company candidate dto.process)))
            (assert_company_approved company)
            (Guards-quiet _ (assert_company_approved-IsQuiet company))

      pub Keeps-create_bulk : Keeps (create_bulk tools ids candidate company dto)
      unfolding create_bulk
      Keeps-create_bulk =
          Keeps-bind
            (λ done. do
              announce round_rating done.round_rating_ids
              announce recruiter_rating done.recruiter_rating_ids
              announce overall_review done.overall_review_id
              pure done.process)
            (λ done. Keeps-quiet _ (search (quiet_rules, announce-IsQuiet)))
            (transaction (submit_all tools ids candidate company dto))
            (Keeps-transaction _ Guards-submit_all)
