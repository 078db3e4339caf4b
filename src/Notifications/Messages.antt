-- ===== src/Notifications/Messages.antt =====
-- The messages that notification-consumer.service.ts handles, the rows of its log and its mails.
use interview_insights.Prelude.{
  ℕ, String, Bool, true, false, ◌&&◌, Option, none, some, List, [], ◌∷◌, ◌++◌, ◌==◌, if◌then◌else◌,
}
use interview_insights.Schema.{
  EntityType, same_type, Status, approved, rejected, RejectionReason, StaffRole, Moderator,
}
use interview_insights.World.{outage, Result, ok, raised}

-- The five staff.account.* events.
pub data StaffEvent : Type 0 where
  account_was_created : StaffRole → String → StaffEvent
  role_was_changed : StaffRole → StaffRole → StaffEvent
  account_was_deactivated account_was_reactivated : StaffEvent
  password_was_reset : String → StaffEvent

-- ModerationEvent: the entity and the candidate of an event about a submission, and its queue entry.
pub data ModerationEvent : Type 0 where
  was_created : EntityType → ℕ → ℕ → Bool → Option ℕ → ModerationEvent
  status_was_changed :
      EntityType
      → ℕ
      → ℕ
      → Status
      → Option ℕ
      → Option RejectionReason
      → Option String
      → ModerationEvent
  deadline_was_missed : ℕ → Option ℕ → ModerationEvent
  deadline_is_near : ℕ → ModerationEvent
  staff_was_changed : ℕ → String → ℕ → StaffEvent → ModerationEvent

-- The column `entityType` of a log row.
pub data Subject : Type 0 where
  entity : EntityType → Subject
  moderation_queue staff_account : Subject

-- The column `eventType` of a log row, without the entity's type, which the row has.
pub data EventKind : Type 0 where
  created_kind status_changed_kind sla_breach_kind sla_warning_kind : EventKind
  staff_created_kind staff_role_changed_kind staff_deactivated_kind : EventKind
  staff_reactivated_kind staff_password_reset_kind : EventKind

unfoldable pub entity_type_for_event : ModerationEvent → Subject
entity_type_for_event (was_created t id c r q) = entity t
entity_type_for_event (status_was_changed t id c s q reason text) = entity t
entity_type_for_event (deadline_was_missed id claimed) = moderation_queue
entity_type_for_event (deadline_is_near id) = moderation_queue
entity_type_for_event (staff_was_changed id email action e) = staff_account

unfoldable pub entity_id_for : ModerationEvent → ℕ
entity_id_for (was_created t id c r q) = id
entity_id_for (status_was_changed t id c s q reason text) = id
entity_id_for (deadline_was_missed id claimed) = id
entity_id_for (deadline_is_near id) = id
entity_id_for (staff_was_changed id email action e) = id

unfoldable pub kind_of_staff : StaffEvent → EventKind
kind_of_staff (account_was_created r p) = staff_created_kind
kind_of_staff (role_was_changed r s) = staff_role_changed_kind
kind_of_staff account_was_deactivated = staff_deactivated_kind
kind_of_staff account_was_reactivated = staff_reactivated_kind
kind_of_staff (password_was_reset p) = staff_password_reset_kind

unfoldable pub kind_of_event : ModerationEvent → EventKind
unfolding kind_of_staff
kind_of_event (was_created t id c r q) = created_kind
kind_of_event (status_was_changed t id c s q reason text) = status_changed_kind
kind_of_event (deadline_was_missed id claimed) = sla_breach_kind
kind_of_event (deadline_is_near id) = sla_warning_kind
kind_of_event (staff_was_changed id email action e) = kind_of_staff e

-- The empty text is `none`.
unfoldable pub moderation_queue_entry_id_for : ModerationEvent → Option ℕ
moderation_queue_entry_id_for (was_created t id c resubmission q) = if resubmission then q else none
moderation_queue_entry_id_for (status_was_changed t id c s q reason text) = q
moderation_queue_entry_id_for (deadline_was_missed id claimed) = none
moderation_queue_entry_id_for (deadline_is_near id) = none
moderation_queue_entry_id_for (staff_was_changed id email action e) = some action

-- A row of NotificationLog, which is its unique key.
pub record LogRow : Type 0 where
  pub entity_type : Subject
  pub entity_id : ℕ
  pub event_type : EventKind
  pub moderation_queue_entry_id : Option ℕ

unfoldable pub key_of : ModerationEvent → LogRow
unfolding entity_type_for_event entity_id_for kind_of_event moderation_queue_entry_id_for
key_of event = record {
  entity_type = entity_type_for_event event;
  entity_id = entity_id_for event;
  event_type = kind_of_event event;
  moderation_queue_entry_id = moderation_queue_entry_id_for event;
}

-- The templates.
pub data Template : Type 0 where
  pending_review : Bool → Template
  decided : Status → Option RejectionReason → Option String → Template
  sla_breach_mail sla_warning_mail : Template
  staff_mail : StaffEvent → Template

-- notificationFor
unfoldable pub notification_for : ModerationEvent → Option Template
notification_for (was_created t id c resubmission q) = some (pending_review resubmission)
notification_for (status_was_changed t id c approved q reason text) =
    some (decided approved reason text)
notification_for (status_was_changed t id c rejected q reason text) =
    some (decided rejected reason text)
notification_for (status_was_changed t id c _ q reason text) = none
notification_for _ = none

pub record Mail : Type 0 where
  pub to : String
  pub content : Template

-- model Candidate, as the service reads it.
pub record Candidate : Type 0 where
  pub id : ℕ
  pub email_encrypted : Option String

-- The service's state: the log, the mirrored tables, the mails that have been sent, how the transport
-- answers, and EMAIL_ENCRYPTION_KEY.
pub record Mailroom : Type 0 where
  pub log : List LogRow
  pub candidates : List Candidate
  pub moderators : List Moderator
  pub sent : List Mail
  pub accepts : Mail → Bool
  pub key : Option String

abbrev pub Task : Type 0
Task = Mailroom → Result Unit × Mailroom

-- `await m; await k`
abbrev pub then_task : Task → Task → Task
then_task m k s = let (r, s') = m s in elim r [ ok u ↦ k s' | raised f ↦ (raised f, s') ]

unfoldable pub send_mail : Mail → Task
send_mail mail s =
    if s.accepts mail then (ok tt, record s { sent = s.sent ++ mail ∷ [] }) else (raised outage, s)

-- `Promise.all(...)`: every mail is tried, and one failure is a failure.
unfoldable pub send_all : List Mail → Task
unfolding send_mail
send_all [] s = (ok tt, s)
send_all (mail ∷ rest) s =
    let (r, s') = send_mail mail s in
    let (r', s'') = send_all rest s' in (elim r [ ok u ↦ r' | raised f ↦ raised f ], s'')

-- A number for each kind, so that kinds are compared by it.
unfoldable pub code_of : EventKind → ℕ
code_of created_kind = 0
code_of status_changed_kind = 1
code_of sla_breach_kind = 2
code_of sla_warning_kind = 3
code_of staff_created_kind = 4
code_of staff_role_changed_kind = 5
code_of staff_deactivated_kind = 6
code_of staff_reactivated_kind = 7
code_of staff_password_reset_kind = 8

unfoldable pub same_subject : Subject → Subject → Bool
same_subject (entity t) (entity u) = same_type t u
same_subject moderation_queue moderation_queue = true
same_subject staff_account staff_account = true
same_subject _ _ = false

unfoldable pub same_entry : Option ℕ → Option ℕ → Bool
same_entry none none = true
same_entry (some a) (some b) = a == b
same_entry _ _ = false

-- where: { notification_log_dedup_key: { ... } }
unfoldable pub same_key : LogRow → LogRow → Bool
unfolding code_of same_subject same_entry
same_key a b =
    same_subject a.entity_type b.entity_type
    && a.entity_id == b.entity_id
    && code_of a.event_type == code_of b.event_type
    && same_entry a.moderation_queue_entry_id b.moderation_queue_entry_id
