-- ===== src/Moderation/Review/BestEffort.antt =====
-- What follows a committed decision in `review` of api/src/moderation/moderation.service.ts.
use interview_insights.Prelude.{ℕ, ◌≡◌, String, Option, none, some, arith}
use interview_insights.Prisma.{Prisma}
use interview_insights.Schema.{
  EntityType, round_rating, Status, RejectionReason, QueueEntry, InterviewProcess,
}
use interview_insights.World.Calls.{Event, StatusChange}
use interview_insights.World.Quiet.{IsQuiet, quiet_rules, with_calls}
use interview_insights.World.Safe.{IsSafe, safe_rules, ok_of_IsSafe}
use interview_insights.World.{World, ok}
use interview_insights.Moderation.Lookups.{process_of, process_of_round, process_of_interaction}
use interview_insights.Moderation.Publishing.{
  publish, status_changed_event_of, publish_company_status, publish_status_changed_event,
  publish_sla_resolved_event, created_event_of, publish_company_created, publish_created_event,
}
use interview_insights.Moderation.Indexing.{
  remove_from_search_index, index_approved_review, index_approved_company, refresh_analytics_view,
  refresh_view_named, company_of,
}
use interview_insights.Moderation.Review.{Decision, ActionDto, review_after}

publish-IsQuiet : (e : Event) (key : ℕ) → IsQuiet (publish e key)
unfolding publish
publish-IsQuiet e key = search quiet_rules

refresh_view_named-IsQuiet : (name : Option String) → IsQuiet (refresh_view_named name)
unfolding refresh_view_named
refresh_view_named-IsQuiet none = search quiet_rules
refresh_view_named-IsQuiet (some name) = search quiet_rules

refresh_analytics_view-IsQuiet : (t : EntityType) → IsQuiet (refresh_analytics_view t)
unfolding refresh_analytics_view
refresh_analytics_view-IsQuiet t = search refresh_view_named-IsQuiet

pub remove_from_search_index-IsQuiet :
    (t : EntityType) (id : ℕ) → IsQuiet (remove_from_search_index t id)
unfolding remove_from_search_index
remove_from_search_index-IsQuiet t id = search quiet_rules

publish_sla_resolved_event-IsQuiet :
    (e : QueueEntry) (d : Status) (by : Option String) (id : ℕ)
    → IsQuiet (publish_sla_resolved_event e d by id)
unfolding publish_sla_resolved_event
publish_sla_resolved_event-IsQuiet e d by id = search (quiet_rules, publish-IsQuiet)

module _ ⦃P : Prisma⦄ where
  pub process_of-IsQuiet : (id : ℕ) → IsQuiet (process_of id)
  unfolding process_of
  process_of-IsQuiet id = search quiet_rules

  pub process_of_round-IsQuiet : (id : ℕ) → IsQuiet (process_of_round id)
  unfolding process_of_round
  process_of_round-IsQuiet id = search (quiet_rules, process_of-IsQuiet)

  pub process_of_interaction-IsQuiet : (id : ℕ) → IsQuiet (process_of_interaction id)
  unfolding process_of_interaction
  process_of_interaction-IsQuiet id = search (quiet_rules, process_of-IsQuiet)

  publish_company_status-IsQuiet :
      (id : ℕ) (c : StatusChange) (o : Option ℕ) → IsQuiet (publish_company_status id c o)
  unfolding publish_company_status
  publish_company_status-IsQuiet id c none = search quiet_rules
  publish_company_status-IsQuiet id c (some x) = search publish-IsQuiet

  publish_company_created-IsQuiet : (id : ℕ) (o : Option ℕ) → IsQuiet (publish_company_created id o)
  unfolding publish_company_created
  publish_company_created-IsQuiet id none = search quiet_rules
  publish_company_created-IsQuiet id (some x) = search (quiet_rules, publish-IsQuiet)

  pub company_of-IsQuiet : (p : InterviewProcess) → IsQuiet (company_of p)
  unfolding company_of
  company_of-IsQuiet p = search quiet_rules

ruleset quiet_reads = (
  quiet_rules, publish-IsQuiet, process_of-IsQuiet, process_of_round-IsQuiet,
  process_of_interaction-IsQuiet, publish_company_status-IsQuiet, publish_company_created-IsQuiet,
  company_of-IsQuiet,
)

module _ ⦃P : Prisma⦄ where
  status_changed_event_of-IsQuiet :
      (t : EntityType) (id : ℕ) (c : StatusChange) → IsQuiet (status_changed_event_of t id c)
  unfolding status_changed_event_of
  status_changed_event_of-IsQuiet round_rating id c = search quiet_reads depth 8
  status_changed_event_of-IsQuiet _ id c = search quiet_reads depth 8

  created_event_of-IsQuiet :
      (t : EntityType) (id : ℕ) (o : Option ℕ) → IsQuiet (created_event_of t id o)
  unfolding created_event_of
  created_event_of-IsQuiet round_rating id o = search quiet_reads depth 8
  created_event_of-IsQuiet _ id o = search quiet_reads depth 8

  publish_status_changed_event-IsQuiet :
      (t : EntityType) (id : ℕ) (s : Status) (by : Option String) (entry : ℕ)
      (r : Option RejectionReason) (text : Option String)
      → IsQuiet (publish_status_changed_event t id s by entry r text)
  unfolding publish_status_changed_event
  publish_status_changed_event-IsQuiet t id s by entry r text =
      search (quiet_rules, status_changed_event_of-IsQuiet)

  pub publish_created_event-IsQuiet :
      (t : EntityType) (id : ℕ) (o : Option ℕ) → IsQuiet (publish_created_event t id o)
  unfolding publish_created_event
  publish_created_event-IsQuiet t id o = search (quiet_rules, created_event_of-IsQuiet)

  index_approved_review-IsQuiet : (id : ℕ) → IsQuiet (index_approved_review id)
  unfolding index_approved_review
  index_approved_review-IsQuiet id = search quiet_reads depth 8

  index_approved_company-IsQuiet : (id : ℕ) → IsQuiet (index_approved_company id)
  unfolding index_approved_company
  index_approved_company-IsQuiet id = search quiet_reads depth 8

ruleset quiet_effects = (
  quiet_rules, refresh_analytics_view-IsQuiet, remove_from_search_index-IsQuiet,
  publish_sla_resolved_event-IsQuiet, publish_status_changed_event-IsQuiet,
  index_approved_review-IsQuiet, index_approved_company-IsQuiet,
)

module _ ⦃P : Prisma⦄ where
  pub review_after-IsQuiet :
      (e : QueueEntry) (id : ℕ) (d : Decision) (dto : ActionDto) → IsQuiet (review_after e id d dto)
  unfolding review_after
  review_after-IsQuiet e id d dto = search quiet_effects depth 9

publish-IsSafe : (e : Event) (key : ℕ) → IsSafe (publish e key)
unfolding publish
publish-IsSafe e key = search safe_rules

refresh_view_named-IsSafe : (name : Option String) → IsSafe (refresh_view_named name)
unfolding refresh_view_named
refresh_view_named-IsSafe none = search safe_rules
refresh_view_named-IsSafe (some name) = search safe_rules

refresh_analytics_view-IsSafe : (t : EntityType) → IsSafe (refresh_analytics_view t)
unfolding refresh_analytics_view
refresh_analytics_view-IsSafe t = search refresh_view_named-IsSafe

remove_from_search_index-IsSafe : (t : EntityType) (id : ℕ) → IsSafe (remove_from_search_index t id)
unfolding remove_from_search_index
remove_from_search_index-IsSafe t id = search safe_rules

ruleset safe_effects =
    (safe_rules, publish-IsSafe, refresh_analytics_view-IsSafe, remove_from_search_index-IsSafe)

module _ ⦃P : Prisma⦄ where
  review_after-IsSafe :
      (e : QueueEntry) (id : ℕ) (d : Decision) (dto : ActionDto) → IsSafe (review_after e id d dto)
  unfolding review_after publish_status_changed_event publish_sla_resolved_event
      index_approved_review index_approved_company
  review_after-IsSafe e id d dto = search safe_effects depth 9

  -- After a committed decision nothing raises, and only requests to outside services are made.
  pub review_after-eq :
      (e : QueueEntry) (id : ℕ) (d : Decision) (dto : ActionDto) (w : World)
      → review_after e id d dto w ≡ (ok tt, with_calls w (review_after e id d dto w).1.calls)
  review_after-eq e id d dto w = ground (
    arith,
    ok_of_IsSafe (review_after e id d dto) w (review_after-IsSafe e id d dto),
    (review_after-IsQuiet e id d dto).at w,
  )
