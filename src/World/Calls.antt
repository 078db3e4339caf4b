-- ===== src/World/Calls.antt =====
-- The requests that the services send out: to OpenSearch, to Redpanda, and the refresh of a view
-- (api/src/search, api/src/events/schemas).
use interview_insights.Prelude.{ℕ, String, Bool, Option, ℤ}
use interview_insights.Schema.{
  StaffRole, EntityType, Status, RejectionReason, Company, RoundRating, RoundType,
}

-- *.created events. A company's event has no parent, company or resubmission fields.
pub record CreatedEvent : Type 0 where
  pub occurred_at : ℕ
  pub entity_id : ℕ
  pub parent_id : ℕ
  pub candidate_id : ℕ
  pub company_id : ℕ
  pub status : Status
  pub is_resubmission : Bool
  pub moderation_queue_entry_id : Option ℕ

-- What the four *.status_changed events share.
pub record StatusChange : Type 0 where
  pub occurred_at : ℕ
  pub previous_status : Status
  pub new_status : Status
  pub reviewed_by : Option String
  pub moderation_queue_entry_id : ℕ
  pub rejection_reason_category : Option RejectionReason
  pub review_note : Option String

pub record SlaResolved : Type 0 where
  pub occurred_at : ℕ
  pub queue_entry_id : ℕ
  pub entity_type : EntityType
  pub entity_id : ℕ
  pub decision : Status
  pub reviewed_by : Option String
  pub was_breached : Bool
  pub was_warned : Bool
  pub resolution_latency_ms : ℤ

pub record SlaNotice : Type 0 where
  pub occurred_at : ℕ
  pub queue_entry_id : ℕ
  pub entity_type : EntityType
  pub entity_id : ℕ
  pub sla_deadline : ℕ

-- What the five staff.account.* events share.
pub record StaffNotice : Type 0 where
  pub occurred_at : ℕ
  pub moderator_id : ℕ
  pub email : String
  pub actor_id : ℕ
  pub action_id : ℕ

-- An event's constructor is its `eventType`, which names its topic too.
pub data Event : Type 0 where
  round_rating_created recruiter_rating_created overall_review_created : CreatedEvent → Event
  company_created : ℕ → ℕ → ℕ → Status → Event
  round_rating_status_changed : ℕ → ℕ → ℕ → ℕ → StatusChange → Event
  recruiter_rating_status_changed : ℕ → ℕ → ℕ → ℕ → StatusChange → Event
  overall_review_status_changed : ℕ → ℕ → ℕ → ℕ → StatusChange → Event
  company_status_changed : ℕ → ℕ → StatusChange → Event
  sla_resolved : SlaResolved → Event
  staff_account_created : StaffNotice → StaffRole → String → Event
  staff_account_role_changed : StaffNotice → StaffRole → StaffRole → Event
  staff_account_deactivated staff_account_reactivated : StaffNotice → Event
  staff_account_password_reset : StaffNotice → String → Event
  sla_warning : SlaNotice → Event
  sla_breach : SlaNotice → Option ℕ → Event

-- The document of the moderator search index.
pub record IndexableEntry : Type 0 where
  pub entity_type : EntityType
  pub entity_id : ℕ
  pub category : String
  pub company_name : String
  pub role_title : Option String
  pub free_text_preview : Option String
  pub created_at : ℕ

pub data Call : Type 0 where
  send : Event → ℕ → Call
  index_entry : IndexableEntry → Call
  remove_entry : EntityType → ℕ → Call
  index_review : RoundRating → ℕ → String → RoundType → Call
  remove_review : ℕ → Call
  index_company : Company → Call
  refresh_view : String → Call
  -- A mail: its receiver, its subject and its link.
  deliver : String → String → String → Call
