-- ===== src/Schema/Tables.antt =====
-- One record for each table that the moderation services use. Ids are numbers, times are
-- milliseconds, JSON values are texts.
use interview_insights.Prelude.{ℕ, String, Bool, Option, List}
use interview_insights.Schema.Enums.{
  EntityType, Status, FlagReason, RejectionReason, StaffRole, StaffAuditAction, RoundType,
}

-- model ModerationQueueEntry
pub record QueueEntry : Type 0 where
  pub id : ℕ
  pub entity_type : EntityType
  pub entity_id : ℕ
  pub flag_reason : Option FlagReason
  pub reviewed_by : Option String
  pub reviewed_at : Option ℕ
  pub decision : Option Status
  pub rejection_reason_category : Option RejectionReason
  pub review_note : Option String
  pub escalated : Bool
  pub sla_deadline : ℕ
  pub claimed_by_id : Option ℕ
  pub claimed_at : Option ℕ
  pub breach_notified_at : Option ℕ
  pub warning_notified_at : Option ℕ
  pub created_at : ℕ

-- The fields of CreateRoundRatingDto.
pub record RoundRatingDto : Type 0 where
  pub difficulty : ℕ
  pub fluency : ℕ
  pub clarity : ℕ
  pub focus : ℕ
  pub technical_depth : Option ℕ
  pub free_text : Option String

-- model RoundRating
pub record RoundRating : Type 0 where
  pub id : ℕ
  pub round_id : ℕ
  pub candidate_id : ℕ
  pub content : RoundRatingDto
  pub status : Status
  pub moderation_verdict : Option String
  pub created_at : ℕ

-- The fields of CreateRecruiterRatingDto.
pub record RecruiterRatingDto : Type 0 where
  pub reachability : ℕ
  pub responsiveness : ℕ
  pub guidelines_shared : ℕ
  pub rejection_message_authenticity : Option ℕ
  pub free_text : Option String

-- model RecruiterRating
pub record RecruiterRating : Type 0 where
  pub id : ℕ
  pub recruiter_interaction_id : ℕ
  pub candidate_id : ℕ
  pub content : RecruiterRatingDto
  pub status : Status
  pub moderation_verdict : Option String
  pub created_at : ℕ

-- The fields of CreateOverallReviewDto.
pub record OverallReviewDto : Type 0 where
  pub overall_experience : ℕ
  pub would_recommend : Bool
  pub review_text : Option String

-- model OverallReview
pub record OverallReview : Type 0 where
  pub id : ℕ
  pub process_id : ℕ
  pub candidate_id : ℕ
  pub content : OverallReviewDto
  pub status : Status
  pub moderation_verdict : Option String
  pub created_at : ℕ

-- The fields of CreateCompanyDto.
pub record CompanyDto : Type 0 where
  pub name : String
  pub slug : String
  pub industry : Option String
  pub size_bucket : String
  pub logo_url : Option String

-- model Company
pub record Company : Type 0 where
  pub id : ℕ
  pub content : CompanyDto
  pub status : Status
  pub candidate_id : Option ℕ
  pub created_at : ℕ

-- A value of `typeMetadata`: a text, an array of texts, or any other JSON value.
pub data MetaValue : Type 0 where
  text : String → MetaValue
  texts : List String → MetaValue
  neither : MetaValue

-- The fields of CreateRoundDto. An object is the list of its keys with their values.
pub record RoundDto : Type 0 where
  pub sequence_number : ℕ
  pub title : Option String
  pub description : Option String
  pub round_type : RoundType
  pub scheduled_duration_minutes : Option ℕ
  pub type_metadata : Option (List (String × MetaValue))

-- model Round
pub record Round : Type 0 where
  pub id : ℕ
  pub process_id : ℕ
  pub content : RoundDto

-- model Recruiter
pub record Recruiter : Type 0 where
  pub id : ℕ
  pub company_id : ℕ
  pub internal_identifier_hash : String
  pub display_label : ℕ

-- model RecruiterInteraction
pub record RecruiterInteraction : Type 0 where
  pub id : ℕ
  pub process_id : ℕ
  pub recruiter_id : ℕ

-- The fields of CreateInterviewProcessDto other than the title of the role.
pub record ProcessDetails : Type 0 where
  pub level : Option String
  pub department : Option String
  pub application_date : Option String
  pub outcome : String

-- model InterviewProcess
pub record InterviewProcess : Type 0 where
  pub id : ℕ
  pub candidate_id : ℕ
  pub company_id : ℕ
  pub role_title : String
  pub details : ProcessDetails
  pub created_at : ℕ

-- model RoundTypeFieldOption
pub record RoundTypeFieldOption : Type 0 where
  pub id : ℕ
  pub round_type : RoundType
  pub field_key : String
  pub value : String
  pub sort_order : ℕ
  pub is_active : Bool

-- model Candidate
pub record CandidateAccount : Type 0 where
  pub id : ℕ
  pub email_hash : String
  pub email_encrypted : Option String
  pub email_verified : Bool
  pub verified_at : Option ℕ
  pub password_hash : Option String
  pub password_set_at : Option ℕ
  pub token_version : ℕ
  pub created_at : ℕ

-- model CandidateVerificationToken, and CandidatePasswordResetToken, which has the same columns.
pub record CandidateToken : Type 0 where
  pub id : ℕ
  pub candidate_id : ℕ
  pub token_hash : String
  pub expires_at : ℕ
  pub consumed_at : Option ℕ
  pub created_at : ℕ

-- model AiAutoApprovalAudit
pub record AiAutoApprovalAudit : Type 0 where
  pub entity_type : EntityType
  pub entity_id : ℕ
  pub moderation_queue_entry_id : ℕ
  pub prompt_content : String
  pub response_text : String
  pub verdict : String
  pub confidence : ℕ
  pub model : String

-- model Moderator
pub record Moderator : Type 0 where
  pub id : ℕ
  pub username : String
  pub password_hash : String
  pub email : String
  pub role : StaffRole
  pub is_active : Bool
  pub created_by_id : Option ℕ
  pub created_at : ℕ

-- model StaffAuditLog, with the roles of its `detail`.
pub record StaffAuditLog : Type 0 where
  pub id : ℕ
  pub actor_id : ℕ
  pub target_id : ℕ
  pub action : StaffAuditAction
  pub detail : List StaffRole
  pub created_at : ℕ

-- model EditThrottleState
pub record EditThrottleState : Type 0 where
  pub candidate_id : ℕ
  pub window_start : ℕ
  pub count : ℕ

-- The tables.
pub record Db : Type 0 where
  pub queue : List QueueEntry
  pub round_ratings : List RoundRating
  pub recruiter_ratings : List RecruiterRating
  pub overall_reviews : List OverallReview
  pub companies : List Company
  pub rounds : List Round
  pub recruiter_interactions : List RecruiterInteraction
  pub processes : List InterviewProcess
  pub audits : List AiAutoApprovalAudit
  pub moderators : List Moderator
  pub staff_audit_log : List StaffAuditLog
  pub edit_throttle : List EditThrottleState
  pub recruiters : List Recruiter
  pub round_type_options : List RoundTypeFieldOption
  pub candidates : List CandidateAccount
  pub verification_tokens : List CandidateToken
  pub reset_tokens : List CandidateToken
