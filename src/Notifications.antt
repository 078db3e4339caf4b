-- ===== src/Notifications.antt =====
-- services/notification-service/src/notifications/notification-consumer.service.ts and
-- staff-notification-recipients.service.ts: the mails of an event and the log of them.
-- Parsing a message, decrypting an address and the mail transport are parameters; a mail is its
-- recipient and which of the service's templates it is made from.
pub mod Messages
pub mod Redelivery
pub mod Reconciliation
pub mod Handover
mod Once
pub mod Sweep
use interview_insights.Prelude.{
  ℕ, String, Bool, true, false, not, ◌&&◌, ◌||◌, Option, none, some, List, [], ◌∷◌, ◌++◌, map, ◌==◌,
  if◌then◌else◌,
}
use interview_insights.Prisma.{Prisma}
use interview_insights.Schema.{
  EntityType, same_type, Status, approved, rejected, RejectionReason, StaffRole, moderator, admin,
  same_role, Moderator,
}
use interview_insights.World.{Failure, error, outage, unique_violation, Result, ok, raised}
use interview_insights.Notifications.Messages.{
  StaffEvent, ModerationEvent, Subject, EventKind, entity_type_for_event, entity_id_for,
  kind_of_staff, kind_of_event, moderation_queue_entry_id_for, LogRow, key_of, Template,
  notification_for, Mail, Candidate, Mailroom, Task, then_task, send_mail, send_all, code_of,
  same_subject, same_entry, same_key, account_was_created, role_was_changed,
  account_was_deactivated, account_was_reactivated, password_was_reset, was_created,
  status_was_changed, deadline_was_missed, deadline_is_near, staff_was_changed, entity,
  moderation_queue, staff_account, created_kind, status_changed_kind, sla_breach_kind,
  sla_warning_kind, staff_created_kind, staff_role_changed_kind, staff_deactivated_kind,
  staff_reactivated_kind, staff_password_reset_kind, pending_review, decided, sla_breach_mail,
  sla_warning_mail, staff_mail,
}

module _ ⦃P : Prisma⦄ where
  -- `alreadySent`
  unfoldable pub already_sent : LogRow → Mailroom → Bool
  already_sent row s = not (P.count (same_key row) s.log == 0)

  -- notificationLog.create, whose violation of the unique key is caught.
  unfoldable pub log_sent : LogRow → Task
  unfolding already_sent
  log_sent row s =
      if already_sent row s then (ok tt, s) else (ok tt, record s { log = P.create row s.log })

  unfoldable pub active_moderator_emails : Mailroom → List String
  active_moderator_emails s =
      map (λ m. m.email)
        (P.find_many (λ m. m.is_active && (same_role m.role moderator || same_role m.role admin))
          s.moderators)

  unfoldable pub active_admin_emails : Mailroom → List String
  active_admin_emails s =
      map (λ m. m.email) (P.find_many (λ m. m.is_active && same_role m.role admin) s.moderators)

  abbrev pub emails_of : Option Moderator → List String
  emails_of none = []
  emails_of (some m) = m.email ∷ []

  unfoldable pub resolve_claimant_email : ℕ → Mailroom → List String
  resolve_claimant_email id s = emails_of (P.find_first (λ m. m.id == id) s.moderators)

  -- The claimant, or every active admin where nobody has claimed the entry.
  unfoldable pub breach_recipients : Option ℕ → Mailroom → List String
  unfolding resolve_claimant_email active_admin_emails
  breach_recipients (some id) s = resolve_claimant_email id s
  breach_recipients none s = active_admin_emails s

  -- The mails go out and the log row is written; where there is nobody to write to, neither.
  unfoldable pub broadcast : LogRow → List String → Template → Task
  unfolding log_sent
  broadcast row [] content s = (ok tt, s)
  broadcast row (to ∷ rest) content s =
      then_task (send_all (map (λ t. record { to = t; content = content }) (to ∷ rest)))
        (log_sent row) s

  abbrev pub no_key : Failure
  no_key = error "EMAIL_ENCRYPTION_KEY must be set to decrypt a candidate email to notify."

  abbrev pub address_of : Option Candidate → Option String
  address_of none = none
  address_of (some c) = c.email_encrypted

module _ ⦃P : Prisma⦄ (decrypt : String → String → String) where
  unfoldable pub send_to_candidate : LogRow → Template → Option String → Option String → Task
  unfolding log_sent
  send_to_candidate row content none key s = (ok tt, s)
  send_to_candidate row content (some encrypted) none s = (raised no_key, s)
  send_to_candidate row content (some encrypted) (some key) s =
      then_task (send_mail (record { to = decrypt encrypted key; content = content }))
        (log_sent row) s

  unfoldable pub notify_candidate : LogRow → ℕ → Option Template → Task
  unfolding already_sent send_to_candidate
  notify_candidate row candidate none s = (ok tt, s)
  notify_candidate row candidate (some content) s =
      if already_sent row s
      then (ok tt, s)
      else send_to_candidate row content
          (address_of (P.find_first (λ c. c.id == candidate) s.candidates)) s.key s

  -- processEvent, with processSlaBreachEvent, processSlaWarningEvent and processStaffAccountEvent.
  unfoldable pub process_notification : ModerationEvent → Task
  unfolding notify_candidate already_sent broadcast breach_recipients active_moderator_emails
      log_sent
  process_notification (was_created t id c r q) s =
      notify_candidate (key_of (was_created t id c r q)) c
        (notification_for (was_created t id c r q)) s
  process_notification (status_was_changed t id c st q reason text) s =
      notify_candidate (key_of (status_was_changed t id c st q reason text)) c
        (notification_for (status_was_changed t id c st q reason text)) s
  process_notification (deadline_was_missed id claimed) s =
      if already_sent (key_of (deadline_was_missed id claimed)) s
      then (ok tt, s)
      else broadcast (key_of (deadline_was_missed id claimed)) (breach_recipients claimed s)
          sla_breach_mail s
  process_notification (deadline_is_near id) s =
      if already_sent (key_of (deadline_is_near id)) s
      then (ok tt, s)
      else broadcast (key_of (deadline_is_near id)) (active_moderator_emails s) sla_warning_mail s
  process_notification (staff_was_changed id email action e) s =
      if already_sent (key_of (staff_was_changed id email action e)) s
      then (ok tt, s)
      else then_task (send_mail (record { to = email; content = staff_mail e }))
          (log_sent (key_of (staff_was_changed id email action e))) s
