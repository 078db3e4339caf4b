-- ===== src/Notifications/Redelivery.antt =====
-- The redelivery of an event to
-- services/notification-service/src/notifications/notification-consumer.service.ts.
use interview_insights.Prelude.{
  ℕ, String, ◌≡◌, refl, ◌∙◌, ◌⊎◌, inl, inr, Bool, true, false, Option, none, some, List, [], ◌∷◌,
  ◌++◌, map, count_where, count-append, arith, ◌==◌, ==-refl, if◌then◌else◌, Bool-cases,
}
use interview_insights.Prisma.{Prisma}
use interview_insights.Schema.{same_type_refl}
use interview_insights.World.{Result, ok, raised}
use interview_insights.Notifications.Messages.{
  ModerationEvent, was_created, status_was_changed, deadline_was_missed, deadline_is_near,
  staff_was_changed, Subject, entity, moderation_queue, staff_account, LogRow, key_of, Template,
  sla_breach_mail, sla_warning_mail, staff_mail, Mailroom, Task, then_task, send_mail, send_all,
  code_of, same_subject, same_entry, same_key,
}
use interview_insights.Notifications.{
  already_sent, log_sent, active_moderator_emails, breach_recipients, broadcast, address_of,
  send_to_candidate, notify_candidate, process_notification,
}

same_subject_refl : (a : Subject) → same_subject a a ≡ true
unfolding same_subject
same_subject_refl (entity t) = same_type_refl t
same_subject_refl moderation_queue = refl
same_subject_refl staff_account = refl

same_entry_refl : (o : Option ℕ) → same_entry o o ≡ true
unfolding same_entry
same_entry_refl none = refl
same_entry_refl (some a) = ==-refl a

same_key_refl : (r : LogRow) → same_key r r ≡ true
unfolding same_key
same_key_refl r = ground (
  arith,
  same_subject_refl r.entity_type,
  same_entry_refl r.moderation_queue_entry_id,
  ==-refl r.entity_id,
  ==-refl (code_of r.event_type),
)

-- A task that is skipped where its row is logged.
abbrev unless_sent : Bool → Task → Task
unless_sent sent body s = if sent then (ok tt, s) else body s

module _ ⦃P : Prisma⦄ where
  log_sent-logs : (row : LogRow) (s : Mailroom) → already_sent row (log_sent row s).1 ≡ true
  unfolding log_sent already_sent count_where
  log_sent-logs row s = elim (Bool-cases (count_where (same_key row) s.log == 0)) [
    | inl z ↦ ground (
      arith,
      P.count_law (same_key row) s.log,
      P.create_law row s.log,
      P.count_law (same_key row) (s.log ++ row ∷ []),
      count-append (same_key row) s.log (row ∷ []),
      same_key_refl row,
    )
    | inr n ↦ ground (arith, P.count_law (same_key row) s.log)
  ]

  -- What a task with a row does: it is skipped for good, or the row is logged where it succeeds.
  abbrev Settles : LogRow → Task → Mailroom → Type 0
  Settles row m s = (m s ≡ (ok tt, s)) ⊎ ((m s).0 ≡ ok tt → already_sent row (m s).1 ≡ true)

  pub then_log-Settles' :
      (row : LogRow) (out : Result Unit × Mailroom)
      → let end : Result Unit × Mailroom = elim out.0 [
        | ok u ↦ log_sent row out.1
        | raised f ↦ (raised f, out.1)
      ] in
        end.0 ≡ ok tt → already_sent row end.1 ≡ true
  then_log-Settles' row (ok u, s) h = log_sent-logs row s
  then_log-Settles' row (raised f, s) h = absurd (ground arith)

  then_log-Settles :
      (row : LogRow) (m : Task) (s : Mailroom) → Settles row (then_task m (log_sent row)) s
  then_log-Settles row m s = inr (then_log-Settles' row (m s))

  Settles-at :
      (row : LogRow) (m : Task) (s : Mailroom) (out : Result Unit × Mailroom)
      → m s ≡ out
      → (out ≡ (ok tt, s)) ⊎ (out.0 ≡ ok tt → already_sent row out.1 ≡ true)
      → Settles row m s
  Settles-at row m s out e (inl h) = inl (e ∙ h)
  Settles-at row m s out e (inr h) = inr (λ k. rw e (h (ground arith)))

  broadcast-Settles :
      (row : LogRow) (emails : List String) (content : Template) (s : Mailroom)
      → Settles row (broadcast row emails content) s
  unfolding broadcast
  broadcast-Settles row [] content s = inl refl
  broadcast-Settles row (to ∷ rest) content s =
      then_log-Settles row (send_all (map (λ t. record { to = t; content = content }) (to ∷ rest)))
        s

  body_ok :
      (b : Bool) (body : Task) (s : Mailroom)
      → b ≡ false
      → (unless_sent b body s).0 ≡ ok tt
      → (body s).0 ≡ ok tt
  body_ok true body s n h = absurd (ground arith)
  body_ok false body s n h = h

  -- A guarded task that settles, run again after it has succeeded, does nothing.
  unless_sent-twice :
      (row : LogRow) (body : Task) (s : Mailroom)
      → Settles row body s
      → let once = unless_sent (already_sent row s) body s in
        once.0 ≡ ok tt → unless_sent (already_sent row once.1) body once.1 ≡ (ok tt, once.1)
  unless_sent-twice row body s k h = elim (Bool-cases (already_sent row s)) [
    | inl y ↦ rw (y, y) refl
    | inr n ↦ rw n (after n k)
  ]
    where
      after :
          already_sent row s ≡ false
          → (body s ≡ (ok tt, s)) ⊎ ((body s).0 ≡ ok tt → already_sent row (body s).1 ≡ true)
          → unless_sent (already_sent row (body s).1) body (body s).1 ≡ (ok tt, (body s).1)
      after n (inl e) = rw e (rw n e)
      after n (inr f) = rw (f (body_ok (already_sent row s) body s n h)) refl

module _ ⦃P : Prisma⦄ (decrypt : String → String → String) where
  candidate-Settles :
      (row : LogRow) (content : Template) (address key : Option String) (s : Mailroom)
      → Settles row (send_to_candidate decrypt row content address key) s
  unfolding send_to_candidate
  candidate-Settles row content none key s = inl refl
  candidate-Settles row content (some a) none s = inr (λ h. absurd (ground arith))
  candidate-Settles row content (some a) (some k) s =
      then_log-Settles row (send_mail (record { to = decrypt a k; content = content })) s

  -- The candidate's mail, with what is read of the state that a first delivery leaves as it was.
  notify-twice :
      (row : LogRow) (candidate : ℕ) (content : Option Template) (s : Mailroom)
      → let once = notify_candidate decrypt row candidate content s in
        once.0 ≡ ok tt → notify_candidate decrypt row candidate content once.1 ≡ (ok tt, once.1)
  unfolding notify_candidate
  notify-twice row candidate none s h = refl
  notify-twice row candidate (some content) s h =
      unless_sent-twice row
        (λ s.
          send_to_candidate decrypt row content
            (address_of (P.find_first (λ c. c.id == candidate) s.candidates)) s.key s)
        s
        (candidate-Settles row content
          (address_of (P.find_first (λ c. c.id == candidate) s.candidates)) s.key s)
        h

  -- An event that is delivered again, after a delivery that succeeded, succeeds, sends no mail and
  -- leaves the log as it was.
  pub process_notification-twice :
      (event : ModerationEvent) (s : Mailroom)
      → (process_notification decrypt event s).0 ≡ ok tt
      → let once = (process_notification decrypt event s).1 in
        process_notification decrypt event once ≡ (ok tt, once)
  unfolding process_notification
  process_notification-twice (was_created t id c r q) s h = notify-twice _ c _ s h
  process_notification-twice (status_was_changed t id c st q reason text) s h =
      notify-twice _ c _ s h
  process_notification-twice (deadline_was_missed id claimed) s h =
      unless_sent-twice (key_of (deadline_was_missed id claimed))
        (λ s.
          broadcast (key_of (deadline_was_missed id claimed)) (breach_recipients claimed s)
            sla_breach_mail s)
        s
        (broadcast-Settles (key_of (deadline_was_missed id claimed)) (breach_recipients claimed s)
          sla_breach_mail s)
        h
  process_notification-twice (deadline_is_near id) s h =
      unless_sent-twice (key_of (deadline_is_near id))
        (λ s.
          broadcast (key_of (deadline_is_near id)) (active_moderator_emails s) sla_warning_mail s)
        s
        (broadcast-Settles (key_of (deadline_is_near id)) (active_moderator_emails s)
          sla_warning_mail s)
        h
  process_notification-twice (staff_was_changed id email action e) s h =
      unless_sent-twice (key_of (staff_was_changed id email action e))
        (then_task (send_mail (record { to = email; content = staff_mail e }))
          (log_sent (key_of (staff_was_changed id email action e))))
        s
        (then_log-Settles (key_of (staff_was_changed id email action e))
          (send_mail (record { to = email; content = staff_mail e })) s)
        h
