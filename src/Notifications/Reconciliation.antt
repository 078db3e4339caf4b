-- ===== src/Notifications/Reconciliation.antt =====
-- services/notification-service/src/notifications/reconciliation-sweep.service.ts: the mails that were
-- due an hour ago and are not in the log. The tables of the submissions and of the queue, which the
-- service only reads, are an argument.
use interview_insights.Prelude.{
  ℕ, String, ◌+◌, Bool, true, false, ◌&&◌, Option, none, some, List, [], ◌∷◌, map, ltb, leb, ◌==◌,
  if◌then◌else◌,
}
use mathlib.Core.Option
use interview_insights.Prisma.{Prisma}
use interview_insights.Schema.{
  EntityType, round_rating, recruiter_rating, overall_review, company, Status, approved, rejected,
  Db,
}
use interview_insights.World.{ok}
use interview_insights.Notifications.Messages.{
  entity, created_kind, status_changed_kind, LogRow, pending_review, decided, Task, then_task,
}
use interview_insights.Notifications.{already_sent, address_of, send_to_candidate, notify_candidate}

abbrev pub staleness_window_ms : ℕ
staleness_window_ms = 3600000

abbrev pub created_sweep_max_age_ms : ℕ
created_sweep_max_age_ms = 90000000

abbrev pub is_notifiable_entity_type : EntityType → Bool
is_notifiable_entity_type company = false
is_notifiable_entity_type _ = true

-- What `findEntity` selects of a submission.
pub record Notifiable : Type 0 where
  pub candidate_id : ℕ
  pub status : Status

-- `status === 'approved'` or `status === 'rejected'`
abbrev pub is_worth_a_mail : Status → Bool
is_worth_a_mail approved = true
is_worth_a_mail rejected = true
is_worth_a_mail _ = false

-- reviewedAt: { not: null, lt: staleBefore }
abbrev pub is_stale_at : ℕ → Option ℕ → Bool
is_stale_at now none = false
is_stale_at now (some at) = ltb (at + staleness_window_ms) now

-- createdAt: { gte: veryStaleBefore, lt: staleBefore }
abbrev pub is_in_window : ℕ → ℕ → Bool
is_in_window now at = leb now (at + created_sweep_max_age_ms) && ltb (at + staleness_window_ms) now

abbrev pub status_changed_row : EntityType → ℕ → ℕ → LogRow
status_changed_row t id q = record {
  entity_type = entity t;
  entity_id = id;
  event_type = status_changed_kind;
  moderation_queue_entry_id = some q;
}

abbrev pub created_row : EntityType → ℕ → LogRow
created_row t id = record {
  entity_type = entity t;
  entity_id = id;
  event_type = created_kind;
  moderation_queue_entry_id = none;
}

-- A loop of awaited calls, which the first failure ends.
abbrev pub await_each {ℓ} : {A : Type ℓ} → (A → Task) → List A → Task
await_each f [] s = (ok tt, s)
await_each f (x ∷ xs) s = then_task (f x) (await_each f xs) s

module _ ⦃P : Prisma⦄ where
  unfoldable pub find_entity : EntityType → ℕ → Db → Option Notifiable
  find_entity round_rating id db =
      Option.map (λ r. record { candidate_id = r.candidate_id; status = r.status })
        (P.find_first (λ r. r.id == id) db.round_ratings)
  find_entity recruiter_rating id db =
      Option.map (λ r. record { candidate_id = r.candidate_id; status = r.status })
        (P.find_first (λ r. r.id == id) db.recruiter_ratings)
  find_entity overall_review id db =
      Option.map (λ r. record { candidate_id = r.candidate_id; status = r.status })
        (P.find_first (λ r. r.id == id) db.overall_reviews)
  find_entity company id db = none

  -- The ids of the submissions of one type, each with its candidate's.
  unfoldable pub find_entities_created_in_window : EntityType → ℕ → Db → List (ℕ × ℕ)
  find_entities_created_in_window round_rating now db =
      map (λ r. (r.id, r.candidate_id))
        (P.find_many (λ r. is_in_window now r.created_at) db.round_ratings)
  find_entities_created_in_window recruiter_rating now db =
      map (λ r. (r.id, r.candidate_id))
        (P.find_many (λ r. is_in_window now r.created_at) db.recruiter_ratings)
  find_entities_created_in_window overall_review now db =
      map (λ r. (r.id, r.candidate_id))
        (P.find_many (λ r. is_in_window now r.created_at) db.overall_reviews)
  find_entities_created_in_window company now db = []

module _ ⦃P : Prisma⦄ (decrypt : String → String → String) where
  -- A submission that is gone, or not approved or rejected now, gets no mail.
  unfoldable pub reconcile_found : LogRow → Option Notifiable → Task
  unfolding send_to_candidate
  reconcile_found row none s = (ok tt, s)
  reconcile_found row (some e) s =
      if is_worth_a_mail e.status
      then send_to_candidate decrypt row (decided e.status none none)
          (address_of (P.find_first (λ c. c.id == e.candidate_id) s.candidates)) s.key s
      else (ok tt, s)

  unfoldable pub reconcile_status_changed : Db → ℕ → EntityType → ℕ → Task
  unfolding already_sent reconcile_found
  reconcile_status_changed db q t id s =
      if is_notifiable_entity_type t
      then (if already_sent (status_changed_row t id q) s
          then (ok tt, s)
          else reconcile_found (status_changed_row t id q) (find_entity t id db) s)
      else (ok tt, s)

  -- It is the mail of a first submission.
  unfoldable pub reconcile_created : EntityType → ℕ → ℕ → Task
  unfolding notify_candidate
  reconcile_created t id candidate s =
      notify_candidate decrypt (created_row t id) candidate (some (pending_review false)) s

  unfoldable pub sweep_status_changed : ℕ → Db → Task
  unfolding reconcile_status_changed
  sweep_status_changed now db =
      await_each (λ e. reconcile_status_changed db e.id e.entity_type e.entity_id)
        (P.find_many (λ e. is_stale_at now e.reviewed_at) db.queue)

  unfoldable pub sweep_created : ℕ → Db → Task
  unfolding reconcile_created
  sweep_created now db =
      await_each
        (λ t.
          await_each (λ r. reconcile_created t r.0 r.1) (find_entities_created_in_window t now db))
        (round_rating ∷ recruiter_rating ∷ overall_review ∷ [])

  unfoldable pub sweep_missed : ℕ → Db → Task
  unfolding sweep_status_changed sweep_created
  sweep_missed now db = then_task (sweep_status_changed now db) (sweep_created now db)
