-- ===== src/Examples/Submissions0.antt =====
-- The theorems about submissions and notifications at concrete worlds.
use interview_insights.Prelude.{
  String, ◌≡◌, refl, true, false, none, some, [], ◌∷◌, first, count_where,
}
use interview_insights.Prisma.{list_client}
use interview_insights.Schema.{Db, round_rating, approved, RoundRatingDto}
use interview_insights.World.{World, ok, invalid}
use interview_insights.Fraud.{TextTools}
use interview_insights.Notifications.Messages.{
  ModerationEvent, status_was_changed, Mailroom, notification_for, send_mail,
}
use interview_insights.Notifications.{
  process_notification, already_sent, notify_candidate, send_to_candidate, log_sent,
}
use interview_insights.Notifications.Redelivery.{process_notification-twice}
use interview_insights.Notifications.Reconciliation.{
  Notifiable, find_entity, reconcile_found, reconcile_status_changed,
}
use interview_insights.Notifications.Handover.{
  reconcile-process_notification, process_notification-reconcile,
}
use interview_insights.Examples.World0.{world0, rating_of}

abbrev pub plain_tools : TextTools
plain_tools = record {
  is_blank = λ text. false;
  normalize = λ text. text;
  is_similar = λ text normalized. false;
}

abbrev pub new_words : RoundRatingDto
new_words = record {
  difficulty = 2;
  fluency = 3;
  clarity = 3;
  focus = 3;
  technical_depth = none;
  free_text = some "Shorter than planned.";
}

abbrev unset_world : World
unset_world = record world0 { sla_env = invalid }

abbrev pub mailroom0 : Mailroom
mailroom0 = record {
  log = [];
  candidates = record { id = 41; email_encrypted = some "sealed" } ∷ [];
  moderators = [];
  sent = [];
  accepts = λ mail. true;
  key = some "k";
}

-- The approval of a rating.
abbrev approval0 : ModerationEvent
approval0 = status_was_changed round_rating 11 41 approved (some 1) none none

abbrev pub keep_sealed : String → String → String
keep_sealed sealed key = sealed

process_notification-twice_example :
    let once = (process_notification keep_sealed approval0 mailroom0).1 in
    process_notification keep_sealed approval0 once ≡ (ok tt, once)
unfolding process_notification notify_candidate notification_for already_sent send_to_candidate
    send_mail log_sent count_where first
process_notification-twice_example = process_notification-twice keep_sealed approval0 mailroom0 refl

-- The rating has been approved.
abbrev decided0 : Db
decided0 = record world0.db { round_ratings = record (rating_of 11) { status = approved } ∷ [] }

abbrev found0 : Notifiable
found0 = record { candidate_id = 41; status = approved }

reconcile-process_notification_example :
    let delivered = (process_notification keep_sealed approval0 mailroom0).1 in
    reconcile_status_changed keep_sealed decided0 1 round_rating 11 delivered ≡ (ok tt, delivered)
unfolding process_notification notify_candidate notification_for already_sent send_to_candidate
    send_mail log_sent count_where first find_entity
reconcile-process_notification_example =
    reconcile-process_notification keep_sealed decided0 1 round_rating 11 approved none none found0
      mailroom0 refl refl refl

process_notification-reconcile_example :
    let swept = (reconcile_status_changed keep_sealed decided0 1 round_rating 11 mailroom0).1 in
    process_notification keep_sealed approval0 swept ≡ (ok tt, swept)
unfolding process_notification reconcile_status_changed reconcile_found notify_candidate
    notification_for already_sent send_to_candidate send_mail log_sent count_where first find_entity
process_notification-reconcile_example =
    process_notification-reconcile keep_sealed decided0 1 round_rating 11 approved none none found0
      mailroom0 refl refl refl refl
