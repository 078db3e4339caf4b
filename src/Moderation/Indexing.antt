-- ===== src/Moderation/Indexing.antt =====
-- moderation.service.ts: the requests to OpenSearch and the refresh of the analytics views
-- (indexForSearch, buildIndexableEntry, removeFromSearchIndex, indexApprovedReview,
-- indexApprovedCompany, refreshAnalyticsView), with the methods of api/src/search that they call.
use interview_insights.Prelude.{ℕ, String, Option, none, some, ◌==◌}
use interview_insights.Prisma.{Prisma}
use interview_insights.Schema.{
  RoundRating, RecruiterRating, OverallReview, EntityType, round_rating, recruiter_rating,
  overall_review, company, Company, InterviewProcess,
}
use interview_insights.World.Calls.{
  IndexableEntry, index_entry, remove_entry, index_review, index_company, refresh_view,
}
use interview_insights.World.{
  Action, record_not_found, pure, or_raise, gets, request, catching, ◌>>=◌,
}
use interview_insights.Moderation.Lookups.{
  round_rating_row, recruiter_rating_row, overall_review_row, company_row, process_of,
  process_of_round, process_of_interaction, broken_join,
}

-- ModerationQueueSearchService.removeEntry, which catches every failure itself.
unfoldable pub remove_from_search_index : EntityType → ℕ → Action Unit
remove_from_search_index t entity_id = catching (request (remove_entry t entity_id))

unfoldable pub analytics_view_for : EntityType → Option String
analytics_view_for round_rating = some "company_round_type_aggregates"
analytics_view_for recruiter_rating = some "company_recruiter_aggregates"
analytics_view_for overall_review = some "company_overall_aggregates"
analytics_view_for company = none

unfoldable pub refresh_view_named : Option String → Action Unit
refresh_view_named none = pure tt
refresh_view_named (some name) = catching (request (refresh_view name))

unfoldable pub refresh_analytics_view : EntityType → Action Unit
refresh_analytics_view t = refresh_view_named (analytics_view_for t)

module _ ⦃P : Prisma⦄ where
  unfoldable pub index_approved_company : ℕ → Action Unit
  index_approved_company id = catching do
    found ← gets (company_row id)
    c ← or_raise found record_not_found
    request (index_company c)

  unfoldable pub index_approved_review : ℕ → Action Unit
  index_approved_review id = catching do
    found ← gets (round_rating_row id)
    r ← or_raise found record_not_found
    round_found ← gets (λ w. P.find_first (λ x. x.id == r.round_id) w.db.rounds)
    round ← or_raise round_found broken_join
    process ← process_of round.process_id
    request (index_review r process.company_id process.role_title round.content.round_type)

  -- include: { company: true }
  unfoldable pub company_of : InterviewProcess → Action Company
  company_of process = do found ← gets (company_row process.company_id); or_raise found broken_join

  abbrev indexable :
      EntityType → ℕ → String → Option String → Option String → ℕ → Action (Option IndexableEntry)
  indexable t id name role preview at = pure (
      some (record {
        entity_type = t;
        entity_id = id;
        category = "interview-review";
        company_name = name;
        role_title = role;
        free_text_preview = preview;
        created_at = at;
      }))

  unfoldable pub round_rating_entry : ℕ → RoundRating → Action (Option IndexableEntry)
  round_rating_entry id r = do
    process ← process_of_round r.round_id
    c ← company_of process
    indexable round_rating id c.content.name (some process.role_title) r.content.free_text
        r.created_at

  unfoldable pub recruiter_rating_entry : ℕ → RecruiterRating → Action (Option IndexableEntry)
  recruiter_rating_entry id r = do
    process ← process_of_interaction r.recruiter_interaction_id
    c ← company_of process
    indexable recruiter_rating id c.content.name (some process.role_title) r.content.free_text
        r.created_at

  unfoldable pub overall_review_entry : ℕ → OverallReview → Action (Option IndexableEntry)
  overall_review_entry id r = do
    process ← process_of r.process_id
    c ← company_of process
    indexable overall_review id c.content.name (some process.role_title) r.content.review_text
        r.created_at

  unfoldable pub company_entry : ℕ → Company → Action (Option IndexableEntry)
  company_entry id c = pure (
      some (record {
        entity_type = company;
        entity_id = id;
        category = "create-company";
        company_name = c.content.name;
        role_title = none;
        free_text_preview = none;
        created_at = c.created_at;
      }))

  -- The entity is looked up first, and nothing is built where it is gone.
  unfoldable pub build_indexable_entry : EntityType → ℕ → Action (Option IndexableEntry)
  unfolding round_rating_entry recruiter_rating_entry overall_review_entry company_entry
  build_indexable_entry round_rating id w = elim (round_rating_row id w) [
    | none ↦ pure none w
    | some r ↦ round_rating_entry id r w
  ]
  build_indexable_entry recruiter_rating id w = elim (recruiter_rating_row id w) [
    | none ↦ pure none w
    | some r ↦ recruiter_rating_entry id r w
  ]
  build_indexable_entry overall_review id w = elim (overall_review_row id w) [
    | none ↦ pure none w
    | some r ↦ overall_review_entry id r w
  ]
  build_indexable_entry company id w = elim (company_row id w) [
    | none ↦ pure none w
    | some c ↦ company_entry id c w
  ]

  unfoldable pub index_document : Option IndexableEntry → Action Unit
  index_document none = pure tt
  index_document (some doc) = request (index_entry doc)

  unfoldable pub index_for_search : EntityType → ℕ → Action Unit
  index_for_search t entity_id =
      catching do doc ← build_indexable_entry t entity_id; index_document doc
