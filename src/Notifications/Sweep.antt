-- ===== src/Notifications/Sweep.antt =====
-- Two sweeps of services/notification-service/src/notifications/reconciliation-sweep.service.ts, one
-- after the other.
use interview_insights.Prelude.{
  ℕ, String, ◌≡◌, refl, ap, ◌∙◌, ◌⊎◌, inl, inr, true, false, Option, none, some, List, [], ◌∷◌,
  arith, ◌==◌, Bool-cases, Option-cases,
}
use interview_insights.Prisma.{Prisma}
use interview_insights.Schema.{
  EntityType, round_rating, recruiter_rating, overall_review, QueueEntry, Db,
}
use interview_insights.World.{ok}
use interview_insights.Notifications.Messages.{
  LogRow, Template, Mailroom, then_task, pending_review,
}
use interview_insights.Notifications.Once.{
  Extends, Extends-refl, Extends-mailed, IsOnce, IsOnce-then, IsOnce-each,
}
use interview_insights.Notifications.{already_sent, address_of, send_to_candidate, notify_candidate}
use interview_insights.Notifications.Handover.{
  address_in, notify_settled, notify_quiet, reconcile_quiet, reconcile_settled,
}
use interview_insights.Notifications.Reconciliation.{
  Notifiable, is_worth_a_mail, is_notifiable_entity_type, status_changed_row, created_row,
  is_stale_at, await_each, find_entity, find_entities_created_in_window, reconcile_found,
  reconcile_status_changed, reconcile_created, sweep_status_changed, sweep_created, sweep_missed,
}

module _ ⦃P : Prisma⦄ (decrypt : String → String → String) where
  Extends-send_to_candidate :
      (row : LogRow) (content : Template) (address key : Option String) (s : Mailroom)
      → Extends s (send_to_candidate decrypt row content address key s).1
  unfolding send_to_candidate
  Extends-send_to_candidate row content none key s = Extends-refl s
  Extends-send_to_candidate row content (some a) none s = Extends-refl s
  Extends-send_to_candidate row content (some a) (some k) s =
      Extends-mailed row (record { to = decrypt a k; content = content }) s

  -- What a candidate's mail leaves settled stays settled.
  still_settled :
      (row : LogRow) (c : ℕ) (u v : Mailroom)
      → Extends u v
      → (already_sent row u ≡ true) ⊎ (address_in decrypt c u ≡ none)
      → (already_sent row v ≡ true) ⊎ (address_in decrypt c v ≡ none)
  still_settled row c u v e (inl y) = inl (e.logged row y)
  still_settled row c u v e (inr a) =
      inr (ap (λ l. address_of (P.find_first (λ x. x.id == c) l)) e.same ∙ a)

  notify-grows :
      (row : LogRow) (content : Template) (c : ℕ) (s : Mailroom)
      → Extends s (notify_candidate decrypt row c (some content) s).1
  unfolding notify_candidate
  notify-grows row content c s = elim (Bool-cases (already_sent row s)) [
    | inl y ↦ rw y (Extends-refl s)
    | inr n ↦ rw n (Extends-send_to_candidate row content (address_in decrypt c s) s.key s)
  ]

  IsOnce-notify :
      (row : LogRow) (content : Template) (c : ℕ)
      → IsOnce (notify_candidate decrypt row c (some content))
  IsOnce-notify row content c = record {
    grows = notify-grows row content c;
    settles = λ s h v e. notify_quiet decrypt row (some content) c v (
        still_settled row c (notify_candidate decrypt row c (some content) s).1 v e
          (notify_settled decrypt row content c s h));
  }

  reconcile_found-grows :
      (row : LogRow) (o : Option Notifiable) (s : Mailroom)
      → Extends s (reconcile_found decrypt row o s).1
  unfolding reconcile_found
  reconcile_found-grows row none s = Extends-refl s
  reconcile_found-grows row (some e) s = elim (Bool-cases (is_worth_a_mail e.status)) [
    | inl y ↦ rw y (Extends-send_to_candidate row _ (address_in decrypt e.candidate_id s) s.key s)
    | inr n ↦ rw n (Extends-refl s)
  ]

  reconcile_status_changed-grows :
      (db : Db) (q : ℕ) (t : EntityType) (id : ℕ) (s : Mailroom)
      → Extends s (reconcile_status_changed decrypt db q t id s).1
  unfolding reconcile_status_changed
  reconcile_status_changed-grows db q t id s = elim (Bool-cases (is_notifiable_entity_type t)) [
    | inr n ↦ rw n (Extends-refl s)
    | inl y ↦ elim (Bool-cases (already_sent (status_changed_row t id q) s)) [
      | inl z ↦ rw (y, z) (Extends-refl s)
      | inr n ↦
          rw (y, n) (reconcile_found-grows (status_changed_row t id q) (find_entity t id db) s)
    ]
  ]

  -- An entry that is not worth a mail.
  reconcile_skipped :
      (db : Db) (q : ℕ) (t : EntityType) (id : ℕ) (v : Mailroom)
      → (find_entity t id db ≡ none)
        ⊎ ((e : Notifiable) × (find_entity t id db ≡ some e) × (is_worth_a_mail e.status ≡ false))
      → reconcile_status_changed decrypt db q t id v ≡ (ok tt, v)
  unfolding reconcile_status_changed reconcile_found
  reconcile_skipped db q t id v (inl n) = rw n (ground arith)
  reconcile_skipped db q t id v (inr (e, f, n)) = rw (f, n) (ground arith)

  reconcile_company :
      (db : Db) (q : ℕ) (t : EntityType) (id : ℕ) (v : Mailroom)
      → is_notifiable_entity_type t ≡ false
      → reconcile_status_changed decrypt db q t id v ≡ (ok tt, v)
  unfolding reconcile_status_changed
  reconcile_company db q t id v n = rw n refl

  IsOnce-reconcile_status_changed :
      (db : Db) (q : ℕ) (t : EntityType) (id : ℕ)
      → IsOnce (reconcile_status_changed decrypt db q t id)
  IsOnce-reconcile_status_changed db q t id = record {
    grows = reconcile_status_changed-grows db q t id;
    settles = λ s h v x. elim (Bool-cases (is_notifiable_entity_type t)) [
      | inr n ↦ reconcile_company db q t id v n
      | inl y ↦ elim (Option-cases (find_entity t id db)) [
        | inl n ↦ reconcile_skipped db q t id v (inl n)
        | inr (e, f) ↦ elim (Bool-cases (is_worth_a_mail e.status)) [
          | inr n ↦ reconcile_skipped db q t id v (inr (e, f, n))
          | inl w ↦ reconcile_quiet decrypt db q t id e v f (
              still_settled (status_changed_row t id q) e.candidate_id
                (reconcile_status_changed decrypt db q t id s).1 v x
                (reconcile_settled decrypt db q t id e s y w f h))
        ]
      ]
    ];
  }

  IsOnce-sweep_missed : (now : ℕ) (db : Db) → IsOnce (sweep_missed decrypt now db)
  unfolding sweep_missed sweep_status_changed sweep_created reconcile_created
  IsOnce-sweep_missed now db =
      IsOnce-then (sweep_status_changed decrypt now db) (sweep_created decrypt now db)
        (IsOnce-each
          (λ (e : QueueEntry). reconcile_status_changed decrypt db e.id e.entity_type e.entity_id)
          (P.find_many (λ e. is_stale_at now e.reviewed_at) db.queue)
          (λ e. IsOnce-reconcile_status_changed db e.id e.entity_type e.entity_id))
        (IsOnce-each
          (λ t.
            await_each (λ r. reconcile_created decrypt t r.0 r.1)
              (find_entities_created_in_window t now db))
          (round_rating ∷ recruiter_rating ∷ overall_review ∷ [])
          (λ t.
            IsOnce-each (λ (r : ℕ × ℕ). reconcile_created decrypt t r.0 r.1)
              (find_entities_created_in_window t now db)
              (λ r. IsOnce-notify (created_row t r.0) (pending_review false) r.1)))

  each_alike :
      (rows rows' : EntityType → List (ℕ × ℕ))
      → ((t : EntityType) → rows t ≡ rows' t)
      → (ts : List EntityType)
      → await_each (λ t. await_each (λ r. reconcile_created decrypt t r.0 r.1) (rows t)) ts
        ≡ await_each (λ t. await_each (λ r. reconcile_created decrypt t r.0 r.1) (rows' t)) ts
  each_alike rows rows' h [] = refl
  each_alike rows rows' h (t ∷ ts) =
      ap
        (λ l.
          then_task (await_each (λ r. reconcile_created decrypt t r.0 r.1) l)
            (await_each (λ t. await_each (λ r. reconcile_created decrypt t r.0 r.1) (rows t)) ts))
        (h t)
      ∙ ap (then_task (await_each (λ r. reconcile_created decrypt t r.0 r.1) (rows' t)))
          (each_alike rows rows' h ts)

  -- A sweep depends on its time only by what has come due.
  sweep_missed_at :
      (now later : ℕ) (db : Db)
      → P.find_many (λ e. is_stale_at later e.reviewed_at) db.queue
        ≡ P.find_many (λ e. is_stale_at now e.reviewed_at) db.queue
      → ((t : EntityType)
          → find_entities_created_in_window t later db ≡ find_entities_created_in_window t now db)
      → sweep_missed decrypt later db ≡ sweep_missed decrypt now db
  unfolding sweep_missed sweep_status_changed sweep_created
  sweep_missed_at now later db q c =
      ap
        (λ l.
          then_task
            (await_each (λ e. reconcile_status_changed decrypt db e.id e.entity_type e.entity_id) l)
            (sweep_created decrypt later db))
        q
      ∙ ap (then_task (sweep_status_changed decrypt now db)) (
          each_alike (λ t. find_entities_created_in_window t later db)
            (λ t. find_entities_created_in_window t now db) c
            (round_rating ∷ recruiter_rating ∷ overall_review ∷ []))

  -- A sweep that is run again over the same tables, after one that succeeded, succeeds, sends no
  -- mail and leaves the log as it was, at any time until which no further queue entry and no further
  -- submission has come due: the entries and submissions that the two sweeps look at are the same.
  pub sweep_missed-twice :
      (now later : ℕ) (db : Db) (s : Mailroom)
      → P.find_many (λ e. is_stale_at later e.reviewed_at) db.queue
        ≡ P.find_many (λ e. is_stale_at now e.reviewed_at) db.queue
      → ((t : EntityType)
          → find_entities_created_in_window t later db ≡ find_entities_created_in_window t now db)
      → (sweep_missed decrypt now db s).0 ≡ ok tt
      → let swept = (sweep_missed decrypt now db s).1 in
        sweep_missed decrypt later db swept ≡ (ok tt, swept)
  sweep_missed-twice now later db s q c h =
      ap (λ f. f (sweep_missed decrypt now db s).1) (sweep_missed_at now later db q c)
      ∙ (IsOnce-sweep_missed now db).settles s h (sweep_missed decrypt now db s).1 (Extends-refl _)
