-- ===== src/Sla.antt =====
-- api/src/moderation/sla-breach-detection.service.ts: the hourly sweep that announces deadlines which
-- are near or past.
pub mod Sweeps
pub mod Outcomes
pub mod Notices
use interview_insights.Prelude.{
  ℕ, ◌+◌, ◌*◌, Bool, not, ◌&&◌, Option, none, some, is_some, List, [], ◌∷◌, ltb, leb,
}
use interview_insights.Prisma.{Prisma}
use interview_insights.Schema.{QueueEntry, Db}
use interview_insights.World.{
  World, Action, record_not_found, outage, pure, raise_if, or_raise, gets, put_db, catching, ◌>>=◌,
  ◌>>◌,
}
use interview_insights.World.Calls.{SlaNotice, Event, sla_warning, sla_breach}
use interview_insights.Moderation.Queue.{has_id, is_unreviewed, get_moderation_sla_hours}
use interview_insights.Moderation.Publishing.{publish}

-- where: { reviewedAt: null, claimedById: null, warningNotifiedAt: null,
--   slaDeadline: { gt: now, lte: warningThreshold } }
abbrev pub is_warnable : ℕ → ℕ → QueueEntry → Bool
is_warnable now threshold e =
    is_unreviewed e
    && not (is_some e.claimed_by_id)
    && not (is_some e.warning_notified_at)
    && ltb now e.sla_deadline
    && leb e.sla_deadline threshold

-- where: { reviewedAt: null, breachNotifiedAt: null, slaDeadline: { lt: new Date() } }
abbrev pub is_breached : ℕ → QueueEntry → Bool
is_breached now e = is_unreviewed e && not (is_some e.breach_notified_at) && ltb e.sla_deadline now

abbrev pub notice_of : ℕ → QueueEntry → SlaNotice
notice_of now e = record {
  occurred_at = now;
  queue_entry_id = e.id;
  entity_type = e.entity_type;
  entity_id = e.entity_id;
  sla_deadline = e.sla_deadline;
}

abbrev pub warning_event : ℕ → QueueEntry → Event
warning_event now e = sla_warning (notice_of now e)

abbrev pub breach_event : ℕ → QueueEntry → Event
breach_event now e = sla_breach (notice_of now e) e.claimed_by_id

-- data: { warningNotifiedAt: new Date() }
abbrev pub warned_row : ℕ → QueueEntry → QueueEntry
warned_row now e = record e { warning_notified_at = some now }

-- data: { breachNotifiedAt: new Date() }
abbrev pub breached_row : ℕ → QueueEntry → QueueEntry
breached_row now e = record e { breach_notified_at = some now }

module _ ⦃P : Prisma⦄ where
  -- The stamp of an announced entry: every failure of the update is caught.
  unfoldable pub stamp : (QueueEntry → QueueEntry) → ℕ → Action Unit
  stamp f id = catching do
    taken ← gets (λ w. w.takes_stamp id)
    raise_if (not taken) outage
    db ← gets (λ w. w.db)
    rows ← or_raise (P.update (has_id id) f db.queue) record_not_found
    put_db (record db { queue = rows })

  unfoldable pub notify_warning : QueueEntry → Action Unit
  notify_warning e = do
    now ← gets (λ w. w.now)
    publish (warning_event now e) e.id
    stamp (warned_row now) e.id

  unfoldable pub notify_breach : QueueEntry → Action Unit
  notify_breach e = do
    now ← gets (λ w. w.now)
    publish (breach_event now e) e.id
    stamp (breached_row now) e.id

  -- for (const entry of entries) { await m(entry); }
  unfoldable pub for_each : (QueueEntry → Action Unit) → List QueueEntry → Action Unit
  for_each m [] = pure tt
  for_each m (e ∷ rest) = do m e; for_each m rest

  -- A quarter of the window is a whole number of milliseconds.
  unfoldable pub sweep_warnings : Action Unit
  sweep_warnings = do
    h ← get_moderation_sla_hours
    now ← gets (λ w. w.now)
    let threshold = now + h * 60 * 60 * 250
    warnable ← gets (λ w. P.find_many (is_warnable now threshold) w.db.queue)
    for_each notify_warning warnable

  unfoldable pub sweep_breaches : Action Unit
  sweep_breaches = do
    now ← gets (λ w. w.now)
    breached ← gets (λ w. P.find_many (is_breached now) w.db.queue)
    for_each notify_breach breached

  unfoldable pub sweep : Action Unit
  sweep = do sweep_warnings; sweep_breaches
