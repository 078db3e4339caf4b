-- ===== src/Examples/Services0.antt =====
-- The theorems about the sweep, the verdicts and the routes at a concrete world.
use interview_insights.Prelude.{
  ℕ, ◌≤◌, ◌≡◌, refl, Bool, true, false, none, some, List, [], ◌∷◌, first, count_where, keep,
  contains, IsKeyed, latest, later,
}
use interview_insights.Prisma.{list_client}
use interview_insights.Schema.{QueueEntry, round_rating, low_quality, staff, moderator, approved}
use interview_insights.Moderation.Queue.{has_id, get_moderation_sla_hours, sla_hours_of}
use interview_insights.Moderation.Entities.{status_of}
use interview_insights.Moderation.Review.{ActionDto, approve, reject}
use interview_insights.Moderation.Publishing.{publish}
use interview_insights.Sla.{
  sweep, sweep_warnings, sweep_breaches, for_each, notify_warning, notify_breach, stamp,
}
use interview_insights.Sla.Notices.{is_breach_of, sweeps, sweeps-le, notices_and_unannounced}
use interview_insights.Verdicts.{
  VerdictEvent, round_rating_verdict, process_event, auto_approval_system_actor, entity_type_for,
  or_else,
}
use interview_insights.Verdicts.Advice.{
  is_escalated, process_event-escalated, process_event_approves,
}
use interview_insights.Access.{approve_route, reject_route, flag_route, claim_route, release_route}
use interview_insights.Access.Routes.{IsForbidden, routes-staff, routes-escalated, routes-allowed}
use interview_insights.Examples.World0.{world0, open_entry, escalated_entry}

abbrev nod : ActionDto
nod = record {
  reviewed_by = some "ada";
  rejection_reason_category = some low_quality;
  review_note = none;
}

queue-IsKeyed : IsKeyed (λ e. e.id) world0.db.queue
unfolding contains
queue-IsKeyed = (refl, (refl, (refl, (refl, (refl, tt)))))

abbrev ticks0 : List (ℕ × Bool)
ticks0 = (3000, true) ∷ (4000, false) ∷ (9000, true) ∷ []

sweeps-le_example :
    notices_and_unannounced 1 (sweeps ticks0 world0) ≤ notices_and_unannounced 1 world0
sweeps-le_example = sweeps-le 1 ticks0 world0 queue-IsKeyed (λ i. refl)

-- Where the stamp fails, the next sweep announces the breach again.
announces_again :
    count_where
      (is_breach_of 1)
      (sweeps ticks0 (record world0 { calls = []; takes_stamp = λ id. false })).calls
    ≡ 2
unfolding sweeps sweep sweep_warnings sweep_breaches for_each notify_warning notify_breach stamp
    get_moderation_sla_hours sla_hours_of publish keep count_where
announces_again = refl

-- A verdict on the review, which may be approved without a moderator.
abbrev verdict_on : ℕ → VerdictEvent
verdict_on id = record {
  about = round_rating_verdict;
  id = id;
  verdict = some "{\"concerns\":[]}";
  auto_approval_eligible = true;
  confidence = some 97;
  model = some "small";
  prompt_content = some "Fair and well prepared.";
  response_text = some "No concerns.";
  stalled = false;
}

process_event-escalated_example :
    keep is_escalated (process_event (verdict_on 12) world0).1.db.queue
    ≡ keep is_escalated world0.db.queue
process_event-escalated_example = process_event-escalated (verdict_on 12) world0 refl queue-IsKeyed

process_event_approves_example :
    let db = (process_event (verdict_on 11) world0).1.db in
    (row : QueueEntry) × (first (has_id 1) db.queue ≡ some row)
    × (row.decision ≡ some approved)
    × (row.reviewed_by ≡ some auto_approval_system_actor)
    × (row.reviewed_at ≡ some 3000)
    × (status_of round_rating 11 db ≡ some approved)
    × (db.audits
        ≡ record {
          entity_type = round_rating;
          entity_id = 11;
          moderation_queue_entry_id = 1;
          prompt_content = or_else (verdict_on 11).prompt_content "";
          response_text = or_else (verdict_on 11).response_text "";
          verdict = "{\"concerns\":[]}";
          confidence = 97;
          model = "small";
        }
          ∷ [])
unfolding status_of entity_type_for latest later first
process_event_approves_example =
    process_event_approves (verdict_on 11) world0 open_entry queue-IsKeyed refl refl refl refl refl

abbrev stalled_on : ℕ → VerdictEvent
stalled_on id = record (verdict_on id) { stalled = true }

routes-staff_example :
    IsForbidden (approve_route staff 1 nod) world0
    × IsForbidden (reject_route staff 1 nod) world0
    × IsForbidden (flag_route staff 1 nod none) world0
    × IsForbidden (claim_route staff 72 1) world0
    × IsForbidden (release_route staff 72 1) world0
routes-staff_example = routes-staff 72 1 nod none world0

routes-escalated_example :
    IsForbidden (approve_route moderator 2 nod) world0
    × IsForbidden (reject_route moderator 2 nod) world0
unfolding first
routes-escalated_example = routes-escalated moderator 2 nod world0 escalated_entry refl refl refl

routes-allowed_example :
    (approve_route moderator 1 nod world0 ≡ approve 1 nod world0)
    × (reject_route moderator 1 nod world0 ≡ reject 1 nod world0)
unfolding first
routes-allowed_example = routes-allowed moderator 1 nod world0 refl refl
