-- ===== src/Gate/Services.antt =====
-- The services that submit, edit and withdraw keep the gate.
use interview_insights.Prelude.{ℕ, ◌≡◌, false, not, Option, none, some, is_some, first, arith, ◌==◌}
use interview_insights.Prisma.{Prisma}
use interview_insights.Schema.{
  round_rating, recruiter_rating, overall_review, company, approved, permanently_rejected,
  same_status, RoundRatingDto, RecruiterRatingDto, OverallReview, OverallReviewDto, CompanyDto,
}
use interview_insights.World.{
  World, ok, gets, or_raise, record_not_found, pure, when, transaction, ◌>>=◌, ◌>>◌,
}
use interview_insights.World.Quiet.{quiet_rules}
use interview_insights.Moderation.Lookups.{company_row}
use interview_insights.Moderation.Publishing.{publish_created_event}
use interview_insights.Moderation.Indexing.{index_for_search, remove_from_search_index}
use interview_insights.Fraud.{TextTools}
use interview_insights.Submissions.Inserts.{
  is_review_of, insert_round_rating, insert_recruiter_rating, insert_overall_review,
}
use interview_insights.Submissions.RoundRatings.{
  create_round_rating, update_round_rating, remove_round_rating, find_round_rating,
  edit_round_rating, delete_round_rating, remove_review_from_index, rating_not_yours_to_edit,
  rating_not_yours_to_delete, rating_closed,
}
use interview_insights.Submissions.RecruiterRatings.{
  create_recruiter_rating, update_recruiter_rating, remove_recruiter_rating, find_recruiter_rating,
  edit_recruiter_rating, delete_recruiter_rating,
}
use interview_insights.Submissions.OverallReviews.{
  create_overall_review, update_overall_review, remove_overall_review, find_overall_review,
  edit_overall_review, delete_overall_review, review_not_yours_to_edit, review_not_yours_to_delete,
  review_closed,
}
use interview_insights.Submissions.Companies.{
  UpdateCompanyDto, create_company, update_company, insert_company, edit_company, is_pending_slug,
  is_requester, already_requested, company_not_yours, company_approved,
}
use interview_insights.Gate.Rules.{Keeps, Keeps-quiet, Keeps-bind, Keeps-transaction}
use interview_insights.Gate.Best.{best_effort, Keeps-written, Keeps-found}
use interview_insights.Gate.Inserts.{
  Guards-insert_round_rating, Guards-insert_recruiter_rating, Guards-insert_overall_review,
}
use interview_insights.Gate.Edits.RoundRatings.{Keeps-edit_round_rating}
use interview_insights.Gate.Edits.RecruiterRatings.{Keeps-edit_recruiter_rating}
use interview_insights.Gate.Edits.OverallReviews.{edit_overall_review-Gated}
use interview_insights.Gate.Edits.Companies.{Keeps-edit_company}
use interview_insights.Gate.Companies.{Keeps-insert_company}
use interview_insights.Gate.Removals.{
  Keeps-delete_round_rating, Keeps-delete_recruiter_rating, delete_overall_review-Gated,
}

module _ ⦃P : Prisma⦄ (tools : TextTools) where
  pub Keeps-create_round_rating :
      (round candidate : ℕ) (dto : RoundRatingDto)
      → Keeps (create_round_rating tools round candidate dto)
  unfolding create_round_rating
  Keeps-create_round_rating round candidate dto =
      Keeps-bind
        (λ r. do
          index_for_search round_rating r.id
          publish_created_event round_rating r.id none
          pure r)
        (λ r. Keeps-quiet _ (search best_effort))
        (transaction (insert_round_rating tools round candidate dto))
        (Keeps-transaction _ (Guards-insert_round_rating tools round candidate dto))

  pub Keeps-create_recruiter_rating :
      (interaction candidate : ℕ) (dto : RecruiterRatingDto)
      → Keeps (create_recruiter_rating tools interaction candidate dto)
  unfolding create_recruiter_rating
  Keeps-create_recruiter_rating interaction candidate dto =
      Keeps-bind
        (λ r. do
          index_for_search recruiter_rating r.id
          publish_created_event recruiter_rating r.id none
          pure r)
        (λ r. Keeps-quiet _ (search best_effort))
        (transaction (insert_recruiter_rating tools interaction candidate dto))
        (Keeps-transaction _ (Guards-insert_recruiter_rating tools interaction candidate dto))

  pub Keeps-create_overall_review :
      (process candidate : ℕ) (dto : OverallReviewDto)
      → Keeps (create_overall_review tools process candidate dto)
  unfolding create_overall_review
  Keeps-create_overall_review process candidate dto =
      Keeps-bind
        (λ r. do
          index_for_search overall_review r.id
          publish_created_event overall_review r.id none
          pure r)
        (λ r. Keeps-quiet _ (search best_effort))
        (transaction (insert_overall_review tools process candidate dto))
        (Keeps-transaction _ (Guards-insert_overall_review tools process candidate dto))

module _ ⦃P : Prisma⦄ where
  pub Keeps-update_round_rating :
      (round id candidate : ℕ) (dto : RoundRatingDto)
      → Keeps (update_round_rating round id candidate dto)
  unfolding update_round_rating find_round_rating
  Keeps-update_round_rating round id candidate dto =
      Keeps-written (find_round_rating round id) (λ r. not (r.candidate_id == candidate))
        (λ r. same_status r.status permanently_rejected) rating_not_yours_to_edit rating_closed
        (λ r. edit_round_rating id dto)
        (λ r x. do
          index_for_search round_rating id
          publish_created_event round_rating id (some x.1.id)
          pure x.0)
        (search quiet_rules) (λ r. Keeps-edit_round_rating id dto) (λ r x. search best_effort)

  pub Keeps-remove_round_rating :
      (round id candidate : ℕ) → Keeps (remove_round_rating round id candidate)
  unfolding remove_round_rating find_round_rating remove_review_from_index
  Keeps-remove_round_rating round id candidate =
      Keeps-written (find_round_rating round id) (λ r. not (r.candidate_id == candidate))
        (λ r. false) rating_not_yours_to_delete rating_closed (λ r. delete_round_rating id)
        (λ r x. do
          remove_from_search_index round_rating id
          when (same_status r.status approved) (remove_review_from_index id))
        (search quiet_rules) (λ r. Keeps-delete_round_rating id) (λ r x. search best_effort)

  pub Keeps-update_recruiter_rating :
      (interaction id candidate : ℕ) (dto : RecruiterRatingDto)
      → Keeps (update_recruiter_rating interaction id candidate dto)
  unfolding update_recruiter_rating find_recruiter_rating
  Keeps-update_recruiter_rating interaction id candidate dto =
      Keeps-written (find_recruiter_rating interaction id) (λ r. not (r.candidate_id == candidate))
        (λ r. same_status r.status permanently_rejected) rating_not_yours_to_edit rating_closed
        (λ r. edit_recruiter_rating id dto)
        (λ r x. do
          index_for_search recruiter_rating id
          publish_created_event recruiter_rating id (some x.1.id)
          pure x.0)
        (search quiet_rules) (λ r. Keeps-edit_recruiter_rating id dto) (λ r x. search best_effort)

  pub Keeps-remove_recruiter_rating :
      (interaction id candidate : ℕ) → Keeps (remove_recruiter_rating interaction id candidate)
  unfolding remove_recruiter_rating find_recruiter_rating
  Keeps-remove_recruiter_rating interaction id candidate =
      Keeps-written (find_recruiter_rating interaction id) (λ r. not (r.candidate_id == candidate))
        (λ r. false) rating_not_yours_to_delete rating_closed (λ r. delete_recruiter_rating id)
        (λ r x. remove_from_search_index recruiter_rating id) (search quiet_rules)
        (λ r. Keeps-delete_recruiter_rating id) (λ r x. search best_effort)

  pub Keeps-create_company :
      (dto : CompanyDto) (candidate : Option ℕ) → Keeps (create_company dto candidate)
  unfolding create_company
  Keeps-create_company dto candidate =
      Keeps-written (gets (λ w. P.find_first (is_pending_slug dto.slug) w.db.companies))
        (λ c. is_some c) (λ c. false) already_requested already_requested
        (λ c. insert_company dto candidate)
        (λ c x. do index_for_search company x.id; publish_created_event company x.id none; pure x)
        (search quiet_rules) (λ c. Keeps-insert_company dto candidate) (λ c x. search best_effort)

  pub Keeps-update_company :
      (id candidate : ℕ) (dto : UpdateCompanyDto) → Keeps (update_company id candidate dto)
  unfolding update_company
  Keeps-update_company id candidate dto =
      Keeps-written (gets (company_row id) >>= λ o. or_raise o record_not_found)
        (λ c. not (is_requester candidate c.candidate_id)) (λ c. same_status c.status approved)
        company_not_yours company_approved (λ c. edit_company id dto)
        (λ c x. index_for_search company id >> pure x) (search quiet_rules)
        (λ c. Keeps-edit_company id dto) (λ c x. search best_effort)

  find_overall_review-reads : (process : ℕ) (w : World) → (find_overall_review process w).1 ≡ w
  unfolding find_overall_review
  find_overall_review-reads process w = ground arith

  found_review :
      (process : ℕ) (r : OverallReview) (w : World)
      → (find_overall_review process w).0 ≡ ok r
      → first (is_review_of process) w.db.overall_reviews ≡ some r
  unfolding find_overall_review
  found_review process r w h =
      ground (arith, P.find_first_law (is_review_of process) w.db.overall_reviews)

  pub Keeps-update_overall_review :
      (process candidate : ℕ) (dto : OverallReviewDto)
      → Keeps (update_overall_review process candidate dto)
  unfolding update_overall_review
  Keeps-update_overall_review process candidate dto =
      Keeps-found (find_overall_review process) (λ r. not (r.candidate_id == candidate))
        (λ r. same_status r.status permanently_rejected) review_not_yours_to_edit review_closed
        (λ r. edit_overall_review process r.id dto)
        (λ r x. do
          index_for_search overall_review r.id
          publish_created_event overall_review r.id (some x.1.id)
          pure x.0)
        (find_overall_review-reads process)
        (λ r w h g. edit_overall_review-Gated process dto w r (found_review process r w h) g)
        (λ r x. search best_effort)

  pub Keeps-remove_overall_review :
      (process candidate : ℕ) → Keeps (remove_overall_review process candidate)
  unfolding remove_overall_review
  Keeps-remove_overall_review process candidate =
      Keeps-found (find_overall_review process) (λ r. not (r.candidate_id == candidate))
        (λ r. false) review_not_yours_to_delete review_closed
        (λ r. delete_overall_review process r.id)
        (λ r x. remove_from_search_index overall_review r.id) (find_overall_review-reads process)
        (λ r w h g. delete_overall_review-Gated process w r (found_review process r w h) g)
        (λ r x. search best_effort)
