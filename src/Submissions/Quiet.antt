-- ===== src/Submissions/Quiet.antt =====
-- What follows a committed submission in the services that candidates submit to.
use interview_insights.Prelude.{ℕ, ◌≡◌, Option, none, some, arith}
use interview_insights.Prisma.{Prisma}
use interview_insights.Schema.{
  RoundRating, RecruiterRating, OverallReview, Company, EntityType, round_rating, recruiter_rating,
  overall_review, company,
}
use interview_insights.World.Calls.{IndexableEntry}
use interview_insights.World.Quiet.{IsQuiet, quiet_rules, with_calls}
use interview_insights.World.{World, Result, Action, pure, ok}
use interview_insights.Moderation.Lookups.{
  round_rating_row, recruiter_rating_row, overall_review_row, company_row,
}
use interview_insights.Moderation.Publishing.{publish_created_event}
use interview_insights.Moderation.Indexing.{
  round_rating_entry, recruiter_rating_entry, overall_review_entry, company_entry,
  build_indexable_entry, index_document, index_for_search,
}
use interview_insights.Moderation.Review.BestEffort.{
  publish_created_event-IsQuiet, company_of-IsQuiet, process_of-IsQuiet, process_of_round-IsQuiet,
  process_of_interaction-IsQuiet,
}

lookup-quiet :
    {A B : Type 0} (o : Option A) (m : Action B) (f : A → Action B) (w : World)
    → IsQuiet m
    → ((a : A) → IsQuiet (f a))
    → let out : Result B × World = elim o [ none ↦ m w | some a ↦ f a w ] in
      out.1 ≡ with_calls w out.1.calls
lookup-quiet none m f w q k = q.at w
lookup-quiet (some a) m f w q k = (k a).at w

module _ ⦃P : Prisma⦄ where
  index_document-IsQuiet : (o : Option IndexableEntry) → IsQuiet (index_document o)
  unfolding index_document
  index_document-IsQuiet none = search quiet_rules
  index_document-IsQuiet (some doc) = search quiet_rules

  round_rating_entry-IsQuiet : (id : ℕ) (r : RoundRating) → IsQuiet (round_rating_entry id r)
  unfolding round_rating_entry
  round_rating_entry-IsQuiet id r =
      search (quiet_rules, process_of_round-IsQuiet, company_of-IsQuiet)

  recruiter_rating_entry-IsQuiet :
      (id : ℕ) (r : RecruiterRating) → IsQuiet (recruiter_rating_entry id r)
  unfolding recruiter_rating_entry
  recruiter_rating_entry-IsQuiet id r =
      search (quiet_rules, process_of_interaction-IsQuiet, company_of-IsQuiet)

  overall_review_entry-IsQuiet : (id : ℕ) (r : OverallReview) → IsQuiet (overall_review_entry id r)
  unfolding overall_review_entry
  overall_review_entry-IsQuiet id r = search (quiet_rules, process_of-IsQuiet, company_of-IsQuiet)

  company_entry-IsQuiet : (id : ℕ) (r : Company) → IsQuiet (company_entry id r)
  unfolding company_entry
  company_entry-IsQuiet id r = search (quiet_rules)

  build_indexable_entry-IsQuiet : (t : EntityType) (id : ℕ) → IsQuiet (build_indexable_entry t id)
  unfolding build_indexable_entry
  build_indexable_entry-IsQuiet round_rating id = record {
    at = λ w.
        lookup-quiet (round_rating_row id w) (pure none) (round_rating_entry id) w
          (search quiet_rules) (round_rating_entry-IsQuiet id);
  }
  build_indexable_entry-IsQuiet recruiter_rating id = record {
    at = λ w.
        lookup-quiet (recruiter_rating_row id w) (pure none) (recruiter_rating_entry id) w
          (search quiet_rules) (recruiter_rating_entry-IsQuiet id);
  }
  build_indexable_entry-IsQuiet overall_review id = record {
    at = λ w.
        lookup-quiet (overall_review_row id w) (pure none) (overall_review_entry id) w
          (search quiet_rules) (overall_review_entry-IsQuiet id);
  }
  build_indexable_entry-IsQuiet company id = record {
    at = λ w.
        lookup-quiet (company_row id w) (pure none) (company_entry id) w (search quiet_rules)
          (company_entry-IsQuiet id);
  }

  pub index_for_search-IsQuiet : (t : EntityType) (id : ℕ) → IsQuiet (index_for_search t id)
  unfolding index_for_search
  index_for_search-IsQuiet t id =
      search (quiet_rules, build_indexable_entry-IsQuiet, index_document-IsQuiet)

  pub index_for_search-eq :
      (t : EntityType) (id : ℕ) (w : World)
      → index_for_search t id w ≡ (ok tt, with_calls w (index_for_search t id w).1.calls)
  unfolding index_for_search
  index_for_search-eq t id w = ground (arith, (index_for_search-IsQuiet t id).at w)

  pub publish_created_event-eq :
      (t : EntityType) (id : ℕ) (o : Option ℕ) (w : World)
      → publish_created_event t id o w
        ≡ (ok tt, with_calls w (publish_created_event t id o w).1.calls)
  unfolding publish_created_event
  publish_created_event-eq t id o w = ground (arith, (publish_created_event-IsQuiet t id o).at w)
