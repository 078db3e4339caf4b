-- ===== src/Sla/Outcomes.antt =====
-- What one sweep does: the rows that it changes and the notices that it sends.
use interview_insights.Prelude.{
  ℕ, ◌+◌, ◌*◌, ◌≡◌, refl, sym, inl, inr, ◌⊎◌, true, ◌++◌, map, keep, change, contains, change-ext,
  IsKeyed, contains-keep, arith,
}
use interview_insights.Prisma.{Prisma}
use interview_insights.Schema.{QueueEntry}
use interview_insights.World.{World, Failure, ok, raised}
use interview_insights.Moderation.Queue.{get_moderation_sla_hours}
use interview_insights.Moderation.Queue.Resubmission.{hours-cases}
use interview_insights.Sla.{
  is_warnable, is_breached, warning_event, breach_event, warned_row, breached_row, notify_warning,
  notify_breach, sweep_warnings, sweep_breaches,
}
use interview_insights.Sla.Sweeps.{sends, for_each-eq, notify_breach-eq, notify_warning-eq}

module _ ⦃P : Prisma⦄ where
  -- A sweep of the breaches succeeds, sends one notice for each unreviewed and unannounced entry
  -- past its deadline, in the order of the queue (none without a connection), and stamps exactly
  -- those entries, where the ids of the queue are distinct and the
  -- database takes every stamp.
  pub sweep_breaches_outcome :
      (w : World)
      → IsKeyed (λ e. e.id) w.db.queue
      → ((i : ℕ) → w.takes_stamp i ≡ true)
      → sweep_breaches w ≡ (
        ok tt,
        record w {
          db = record w.db { queue = change (is_breached w.now) (breached_row w.now) w.db.queue };
          calls =
              w.calls
              ++ sends w.connected (breach_event w.now) (keep (is_breached w.now) w.db.queue);
        },
      )
  unfolding sweep_breaches
  sweep_breaches_outcome w k y = ground (
    arith,
    P.find_many_law (is_breached w.now) w.db.queue,
    for_each-eq (breach_event w.now) (breached_row w.now) notify_breach w.now (λ x. refl)
        (λ x. refl) (λ e v t z. rw (sym t) (notify_breach-eq e v z))
        (keep (is_breached w.now) w.db.queue) w refl y,
    change-ext (λ x. contains x.id (map (λ r. r.id) (keep (is_breached w.now) w.db.queue)))
        (is_breached w.now) (breached_row w.now) w.db.queue
        (contains-keep (λ (e : QueueEntry). e.id) (is_breached w.now) w.db.queue k),
  )

  -- The world after the warnings of a window of that many hours.
  abbrev pub warned : ℕ → World → World
  warned h w = record w {
    db = record w.db {
      queue = change (is_warnable w.now (w.now + h * 60 * 60 * 250)) (warned_row w.now) w.db.queue;
    };
    calls =
        w.calls
        ++ sends w.connected (warning_event w.now)
            (keep (is_warnable w.now (w.now + h * 60 * 60 * 250)) w.db.queue);
  }

  -- A sweep of the warnings either succeeds, sends one warning for each unreviewed, unclaimed and
  -- unannounced entry in the last quarter of its time, in the order of the queue (none without a
  -- connection), and stamps exactly those entries, where the ids of the queue are distinct and the database takes
  -- every stamp; or the
  -- configured number of hours is refused, and nothing changes.
  pub sweep_warnings_outcome :
      (w : World)
      → IsKeyed (λ e. e.id) w.db.queue
      → ((i : ℕ) → w.takes_stamp i ≡ true)
      → ((h : ℕ) × (get_moderation_sla_hours w ≡ (ok h, w))
          × (sweep_warnings w ≡ (ok tt, warned h w)))
        ⊎ ((f : Failure) × (get_moderation_sla_hours w ≡ (raised f, w))
            × (sweep_warnings w ≡ (raised f, w)))
  unfolding sweep_warnings
  sweep_warnings_outcome w k y = elim (hours-cases w) [
    | inl (h, e) ↦ inl (h, e, succeeds h e)
    | inr (f, e) ↦ inr (f, e, fails f e)
  ]
    where
      succeeds :
          (h : ℕ) → get_moderation_sla_hours w ≡ (ok h, w) → sweep_warnings w ≡ (ok tt, warned h w)
      succeeds h e = ground (
        arith,
        P.find_many_law (is_warnable w.now (w.now + h * 60 * 60 * 250)) w.db.queue,
        for_each-eq (warning_event w.now) (warned_row w.now) notify_warning w.now (λ x. refl)
            (λ x. refl) (λ e v t z. rw (sym t) (notify_warning-eq e v z))
            (keep (is_warnable w.now (w.now + h * 60 * 60 * 250)) w.db.queue) w refl y,
        change-ext
            (λ x.
              contains x.id
                (map (λ r. r.id) (keep (is_warnable w.now (w.now + h * 60 * 60 * 250)) w.db.queue)))
            (is_warnable w.now (w.now + h * 60 * 60 * 250)) (warned_row w.now) w.db.queue
            (contains-keep (λ (e : QueueEntry). e.id)
              (is_warnable w.now (w.now + h * 60 * 60 * 250)) w.db.queue k),
      )

      fails :
          (f : Failure)
          → get_moderation_sla_hours w ≡ (raised f, w)
          → sweep_warnings w ≡ (raised f, w)
      fails f e = ground arith
