-- ===== src/Notifications/Handover.antt =====
-- The consumer (services/notification-service/src/notifications/notification-consumer.service.ts)
-- and the reconciliation sweep beside it, on one queue entry: what either logs, the other reads.
use interview_insights.Prelude.{
  ℕ, String, ◌≡◌, refl, ◌⊎◌, inl, inr, Bool, true, false, Option, none, some, is_some, arith, ◌==◌,
  if◌then◌else◌,
}
use interview_insights.Prisma.{Prisma}
use interview_insights.Schema.{EntityType, Status, approved, rejected, RejectionReason, Db}
use interview_insights.World.{Result, ok}
use interview_insights.Notifications.Messages.{
  entity_type_for_event, entity_id_for, kind_of_event, moderation_queue_entry_id_for,
  status_was_changed, key_of, notification_for, decided, LogRow, Template, Mailroom, send_mail,
}
use interview_insights.Notifications.{
  already_sent, address_of, send_to_candidate, notify_candidate, process_notification,
}
use interview_insights.Notifications.Redelivery.{then_log-Settles'}
use interview_insights.Notifications.Reconciliation.{
  Notifiable, is_worth_a_mail, is_notifiable_entity_type, status_changed_row, find_entity,
  reconcile_found, reconcile_status_changed,
}

module _ ⦃P : Prisma⦄ (decrypt : String → String → String) where
  -- The address of a candidate, as it is in the state.
  abbrev pub address_in : ℕ → Mailroom → Option String
  address_in c s = address_of (P.find_first (λ x. x.id == c) s.candidates)

  send_settled :
      (row : LogRow) (content : Template) (c : ℕ) (address key : Option String) (s : Mailroom)
      → address_in c s ≡ address
      → let once = send_to_candidate decrypt row content address key s in
        once.0 ≡ ok tt → (already_sent row once.1 ≡ true) ⊎ (address_in c once.1 ≡ none)
  unfolding send_to_candidate
  send_settled row content c none key s a h = inr a
  send_settled row content c (some x) none s a h = absurd (ground arith)
  send_settled row content c (some x) (some k) s a h =
      inl (then_log-Settles' row (send_mail (record { to = decrypt x k; content = content }) s) h)

  guarded_settled :
      (row : LogRow) (c : ℕ) (s : Mailroom) (b : Bool) (out : Result Unit × Mailroom)
      → already_sent row s ≡ b
      → (out.0 ≡ ok tt → (already_sent row out.1 ≡ true) ⊎ (address_in c out.1 ≡ none))
      → let once = if b then (ok tt, s) else out in
        once.0 ≡ ok tt → (already_sent row once.1 ≡ true) ⊎ (address_in c once.1 ≡ none)
  guarded_settled row c s true out e k h = inl e
  guarded_settled row c s false out e k h = k h

  -- After a mail that succeeded it is in the log, or there is no address to write to.
  pub notify_settled :
      (row : LogRow) (content : Template) (c : ℕ) (s : Mailroom)
      → let once = notify_candidate decrypt row c (some content) s in
        once.0 ≡ ok tt → (already_sent row once.1 ≡ true) ⊎ (address_in c once.1 ≡ none)
  unfolding notify_candidate
  notify_settled row content c s h =
      guarded_settled row c s (already_sent row s)
        (send_to_candidate decrypt row content (address_in c s) s.key s) refl
        (send_settled row content c (address_in c s) s.key s refl) h

  -- Then neither the sweep nor the consumer sends it.
  pub reconcile_quiet :
      (db : Db) (q : ℕ) (t : EntityType) (id : ℕ) (e : Notifiable) (s : Mailroom)
      → find_entity t id db ≡ some e
      → (already_sent (status_changed_row t id q) s ≡ true) ⊎ (address_in e.candidate_id s ≡ none)
      → reconcile_status_changed decrypt db q t id s ≡ (ok tt, s)
  unfolding reconcile_status_changed reconcile_found send_to_candidate
  reconcile_quiet db q t id e s f (inl y) = ground arith
  reconcile_quiet db q t id e s f (inr a) = rw (f, a) (ground arith)

  pub notify_quiet :
      (row : LogRow) (content : Option Template) (c : ℕ) (s : Mailroom)
      → (already_sent row s ≡ true) ⊎ (address_in c s ≡ none)
      → notify_candidate decrypt row c content s ≡ (ok tt, s)
  unfolding notify_candidate send_to_candidate
  notify_quiet row none c s k = refl
  notify_quiet row (some content) c s (inl y) = rw y refl
  notify_quiet row (some content) c s (inr a) = rw a (ground arith)

  pub reconcile_settled :
      (db : Db) (q : ℕ) (t : EntityType) (id : ℕ) (e : Notifiable) (s : Mailroom)
      → is_notifiable_entity_type t ≡ true
      → is_worth_a_mail e.status ≡ true
      → find_entity t id db ≡ some e
      → let once = reconcile_status_changed decrypt db q t id s in
        once.0 ≡ ok tt
        → (already_sent (status_changed_row t id q) once.1 ≡ true)
          ⊎ (address_in e.candidate_id once.1 ≡ none)
  unfolding reconcile_status_changed reconcile_found
  reconcile_settled db q t id e s n w f =
      rw (n, f, w)
        (guarded_settled (status_changed_row t id q) e.candidate_id s
          (already_sent (status_changed_row t id q) s)
          (send_to_candidate decrypt (status_changed_row t id q) (decided e.status none none)
            (address_in e.candidate_id s) s.key s)
          refl
          (send_settled (status_changed_row t id q) (decided e.status none none) e.candidate_id
            (address_in e.candidate_id s) s.key s refl))

  notify_some :
      (row : LogRow) (content : Option Template) (c : ℕ) (s : Mailroom)
      → is_some content ≡ true
      → let once = notify_candidate decrypt row c content s in
        once.0 ≡ ok tt → (already_sent row once.1 ≡ true) ⊎ (address_in c once.1 ≡ none)
  notify_some row none c s i h = absurd (ground arith)
  notify_some row (some content) c s i h = notify_settled row content c s h

  worth :
      (t : EntityType) (id c : ℕ) (st : Status) (q : Option ℕ) (reason : Option RejectionReason)
      (text : Option String)
      → is_worth_a_mail st ≡ true
      → is_some (notification_for (status_was_changed t id c st q reason text)) ≡ true
  unfolding notification_for
  worth t id c approved q reason text a = refl
  worth t id c rejected q reason text a = refl
  worth t id c _ q reason text a = absurd (ground arith)

  -- After the consumer has succeeded with the event of an approval or a rejection, the sweep's look
  -- at the queue entry succeeds, sends no mail and leaves the log as it was, whatever has become of
  -- the submission's status in the meantime. The submission exists, and its candidate is the one of
  -- the event.
  pub reconcile-process_notification :
      (db : Db) (q : ℕ) (t : EntityType) (id : ℕ) (st : Status) (reason : Option RejectionReason)
      (text : Option String) (e : Notifiable) (s : Mailroom)
      → is_worth_a_mail st ≡ true
      → find_entity t id db ≡ some e
      → let event = status_was_changed t id e.candidate_id st (some q) reason text in
        (process_notification decrypt event s).0 ≡ ok tt
        → let delivered = (process_notification decrypt event s).1 in
          reconcile_status_changed decrypt db q t id delivered ≡ (ok tt, delivered)
  unfolding process_notification key_of entity_type_for_event entity_id_for kind_of_event
      moderation_queue_entry_id_for
  reconcile-process_notification db q t id st reason text e s a f h =
      let event = status_was_changed t id e.candidate_id st (some q) reason text in
      reconcile_quiet db q t id e _ f (
        notify_some (key_of event) (notification_for event) e.candidate_id s
          (worth t id e.candidate_id st (some q) reason text a) h)

  -- After the sweep's look at a queue entry has succeeded, an event of the entry that arrives late
  -- succeeds, sends no mail and leaves the log as it was, whichever status it tells of. The
  -- submission exists, is no company, and is approved or rejected at the time of the sweep, and its
  -- candidate is the one of the event.
  pub process_notification-reconcile :
      (db : Db) (q : ℕ) (t : EntityType) (id : ℕ) (st : Status) (reason : Option RejectionReason)
      (text : Option String) (e : Notifiable) (s : Mailroom)
      → is_notifiable_entity_type t ≡ true
      → is_worth_a_mail e.status ≡ true
      → find_entity t id db ≡ some e
      → (reconcile_status_changed decrypt db q t id s).0 ≡ ok tt
      → let swept = (reconcile_status_changed decrypt db q t id s).1 in
        let event = status_was_changed t id e.candidate_id st (some q) reason text in
        process_notification decrypt event swept ≡ (ok tt, swept)
  unfolding process_notification key_of entity_type_for_event entity_id_for kind_of_event
      moderation_queue_entry_id_for
  process_notification-reconcile db q t id st reason text e s n w f h =
      let event = status_was_changed t id e.candidate_id st (some q) reason text in
      notify_quiet (key_of event) (notification_for event) e.candidate_id _
        (reconcile_settled db q t id e s n w f h)
