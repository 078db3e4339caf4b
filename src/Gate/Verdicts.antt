-- ===== src/Gate/Verdicts.antt =====
-- The verdict consumer keeps the gate.

use interview_insights.Prelude.{
  String, ◌≡◌, refl, Bool, true, false, Option, none, some, if◌then◌else◌,
}
use interview_insights.Prisma.{Prisma}
use interview_insights.Schema.{ai_triage_stalled, QueueEntry}
use interview_insights.World.{World, Action, pure, when, catching}
use interview_insights.World.Quiet.{quiet_rules}
use interview_insights.Moderation.Review.{flag, approve_with_audit}
use interview_insights.Verdicts.{
  VerdictEvent, store_verdict, pending_entry, approve_found, auto_approve, flag_found,
  escalate_stalled, apply_verdict, process_event, handle_message, acts_as, audit_of,
  auto_approval_system_actor, reconciliation_sweep_system_actor, entity_type_for, or_else,
}
use interview_insights.Gate.{Grows}
use interview_insights.Gate.Rules.{Gated, Keeps, Keeps-quiet, Keeps-bind}
use interview_insights.Gate.Decisions.{Keeps-flag, Keeps-approve_with_audit}
use interview_insights.Gate.Stored.{store_verdict_at}

module _ ⦃P : Prisma⦄ where
  Keeps-approve_found :
      (event : VerdictEvent) (o : Option QueueEntry) → Keeps (approve_found event o)
  unfolding approve_found
  Keeps-approve_found event none = Keeps-quiet (pure tt) (search quiet_rules)
  Keeps-approve_found event (some e) = record { at = λ w g. go e.escalated refl w g }
    where
      go :
          (b : Bool)
          → e.escalated ≡ b
          → (w : World) → Gated w
          → let out = approve_found event (some e) w in Gated out.1 × Grows w.issued out.1.issued
      go true x w g = rw x (g, λ i h. h)
      go false x w g = rw x (
          (Keeps-bind (λ _. pure tt) (λ _. Keeps-quiet (pure tt) (search quiet_rules))
              (approve_with_audit e.id (acts_as auto_approval_system_actor) (audit_of event))
              (Keeps-approve_with_audit e.id (acts_as auto_approval_system_actor)
                (audit_of event))).at
            w g)

  Keeps-flag_found : (o : Option QueueEntry) → Keeps (flag_found o)
  unfolding flag_found
  Keeps-flag_found none = Keeps-quiet (pure tt) (search quiet_rules)
  Keeps-flag_found (some e) =
      Keeps-bind (λ _. pure tt) (λ _. Keeps-quiet (pure tt) (search quiet_rules))
        (flag e.id (acts_as reconciliation_sweep_system_actor) (some ai_triage_stalled))
        (Keeps-flag e.id (acts_as reconciliation_sweep_system_actor) (some ai_triage_stalled))

  Keeps-escalate_stalled : (event : VerdictEvent) → Keeps (escalate_stalled event)
  unfolding escalate_stalled
  Keeps-escalate_stalled event = record {
    at = λ w g. (Keeps-flag_found (pending_entry (entity_type_for event.about) event.id w)).at w g;
  }

  Keeps-auto_approve : (event : VerdictEvent) → Keeps (auto_approve event)
  unfolding auto_approve
  Keeps-auto_approve event = record {
    at = λ w g.
        (Keeps-approve_found event (pending_entry (entity_type_for event.about) event.id w)).at w g;
  }

  Keeps-either :
      (c : Bool) (m n : Action Unit) → Keeps m → Keeps n → Keeps (λ w. if c then m w else n w)
  Keeps-either true m n k l = record { at = k.at }
  Keeps-either false m n k l = record { at = l.at }

  Keeps-when : (c : Bool) (m : Action Unit) → Keeps m → Keeps (when c m)
  Keeps-when true m k = record { at = k.at }
  Keeps-when false m k = record { at = λ w g. (g, λ i h. h) }

  Keeps-apply_verdict : (event : VerdictEvent) → Keeps (apply_verdict event)
  unfolding apply_verdict
  Keeps-apply_verdict event =
      Keeps-bind (λ _. when event.auto_approval_eligible (auto_approve event))
        (λ _.
          Keeps-when event.auto_approval_eligible (auto_approve event) (Keeps-auto_approve event))
        (store_verdict event.about event.id (or_else event.verdict "{}"))
        (record {
          at = λ w g. store_verdict_at event.id (or_else event.verdict "{}") w event.about g;
        })

  Keeps-process_event : (event : VerdictEvent) → Keeps (process_event event)
  unfolding process_event
  Keeps-process_event event =
      Keeps-either event.stalled (escalate_stalled event) (apply_verdict event)
        (Keeps-escalate_stalled event) (Keeps-apply_verdict event)

  pub Keeps-handle_message :
      (parse : String → Option VerdictEvent) (value : Option String)
      → Keeps (handle_message parse value)
  unfolding handle_message
  Keeps-handle_message parse none = Keeps-quiet (pure tt) (search quiet_rules)
  Keeps-handle_message parse (some value) = go (parse value)
    where
      go :
          (o : Option VerdictEvent)
          → Keeps (elim o [ none ↦ pure tt | some event ↦ catching (process_event event) ])
      go none = Keeps-quiet (pure tt) (search quiet_rules)
      go (some event) = record { at = λ w g. (Keeps-process_event event).at w g }
