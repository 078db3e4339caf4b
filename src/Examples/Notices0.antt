-- ===== src/Examples/Notices0.antt =====
-- The reconciliation sweep of the notifications over a rating that was flagged, edited and approved.
use interview_insights.Prelude.{◌≡◌, refl, none, some, [], ◌∷◌, first, keep, count_where}
use interview_insights.Prisma.{list_client}
use interview_insights.Schema.{
  EntityType, round_rating, recruiter_rating, overall_review, company, approved, flagged, Db,
  QueueEntry,
}
use interview_insights.World.{ok}
use interview_insights.Notifications.Messages
use interview_insights.Notifications.Messages.{
  Mail, Mailroom, decided, notification_for, status_was_changed, send_mail,
}
use interview_insights.Notifications.{
  already_sent, log_sent, send_to_candidate, notify_candidate, process_notification,
}
use interview_insights.Notifications.Reconciliation.{
  find_entity, find_entities_created_in_window, reconcile_found, reconcile_status_changed,
  reconcile_created, sweep_status_changed, sweep_created, sweep_missed,
}
use interview_insights.Notifications.Sweep.{sweep_missed-twice}
use interview_insights.Examples.World0.{db0, rating_of, reviewed_entry}
use interview_insights.Examples.Submissions0.{mailroom0, keep_sealed}

abbrev flagged_entry : QueueEntry
flagged_entry = record reviewed_entry { decision = some flagged }

abbrev approved_entry : QueueEntry
approved_entry = record reviewed_entry { id = 6; decision = some approved; reviewed_at = some 900 }

abbrev resubmitted_db : Db
resubmitted_db = record db0 {
  queue = flagged_entry ∷ approved_entry ∷ [];
  round_ratings = record (rating_of 11) { status = approved } ∷ [];
}

abbrev approval_mail : Mail
approval_mail = record { to = "sealed"; content = decided approved none none }

-- The consumer has sent the mail of the approval; the sweep sends it again, for the flagged entry.
abbrev informed : Mailroom
informed = record mailroom0 {
  sent = approval_mail ∷ [];
  log =
      record {
        entity_type = Messages.entity round_rating;
        entity_id = 11;
        event_type = Messages.status_changed_kind;
        moderation_queue_entry_id = some 6;
      }
      ∷ [];
}

delivers :
    process_notification keep_sealed
      (status_was_changed round_rating 11 41 approved (some 6) none none)
      mailroom0
    ≡ (ok tt, informed)
unfolding process_notification notify_candidate notification_for already_sent send_to_candidate
    send_mail log_sent count_where first Messages.key_of
delivers = refl

sends_again :
    (sweep_missed keep_sealed 100000000 resubmitted_db informed).1.sent
    ≡ approval_mail ∷ approval_mail ∷ []
unfolding sweep_missed sweep_status_changed sweep_created reconcile_status_changed reconcile_created
    reconcile_found notify_candidate already_sent send_to_candidate send_mail log_sent count_where
    first find_entity find_entities_created_in_window keep Messages.same_key
sends_again = refl

created_alike :
    (t : EntityType)
    → find_entities_created_in_window t 4000001 resubmitted_db
      ≡ find_entities_created_in_window t 4000000 resubmitted_db
unfolding find_entities_created_in_window keep
created_alike round_rating = refl
created_alike recruiter_rating = refl
created_alike overall_review = refl
created_alike company = refl

sweep_missed-twice_example :
    let swept = (sweep_missed keep_sealed 4000000 resubmitted_db mailroom0).1 in
    sweep_missed keep_sealed 4000001 resubmitted_db swept ≡ (ok tt, swept)
unfolding sweep_missed sweep_status_changed sweep_created reconcile_status_changed reconcile_created
    reconcile_found notify_candidate already_sent send_to_candidate send_mail log_sent count_where
    first find_entity find_entities_created_in_window keep Messages.same_key
sweep_missed-twice_example =
    sweep_missed-twice keep_sealed 4000000 4000001 resubmitted_db mailroom0 refl created_alike refl
