-- ===== src/Sla/Notices.antt =====
-- The notices of breaches over any number of sweeps (api/src/moderation/sla-breach-detection.service.ts).
use interview_insights.Prelude.{
  ℕ, ◌+◌, ◌*◌, ◌≤◌, ◌≡◌, refl, inl, inr, Bool, true, false, not, ◌&&◌, is_some, List, [], ◌∷◌, keep,
  change, count_where, IsKeyed, IsKeyed-change, arith, ◌==◌, count-append, count-change-le,
}
use interview_insights.Prisma.{Prisma}
use interview_insights.Schema.{QueueEntry}
use interview_insights.World.{World, Failure, ok, raised}
use interview_insights.World.Calls.{Call, send, sla_breach}
use interview_insights.Moderation.Queue.{has_id}
use interview_insights.Sla.{
  is_warnable, is_breached, warning_event, breach_event, warned_row, breached_row, sweep_warnings,
  sweep_breaches, sweep,
}
use interview_insights.Sla.Sweeps.{sends}
use interview_insights.Sla.Outcomes.{sweep_breaches_outcome, sweep_warnings_outcome, warned}

module _ ⦃P : Prisma⦄ where
  -- Is the request the notice of a breach by the entry?
  abbrev pub is_breach_of : ℕ → Call → Bool
  is_breach_of id (send (sla_breach notice c) key) = notice.queue_entry_id == id
  is_breach_of id _ = false

  -- The row is the entry's and not announced.
  abbrev pub is_unannounced : ℕ → QueueEntry → Bool
  is_unannounced id e = has_id id e && not (is_some e.breach_notified_at)

  -- The notices of the entry's breach, and the rows that one may yet be sent for.
  abbrev pub notices_and_unannounced : ℕ → World → ℕ
  notices_and_unannounced id w =
      count_where (is_breach_of id) w.calls + count_where (is_unannounced id) w.db.queue

  sent_breaches :
      (id now : ℕ) (connected : Bool) (rows : List QueueEntry)
      → count_where
            (is_breach_of id)
            (sends connected (breach_event now) (keep (is_breached now) rows))
          + count_where (is_unannounced id) (change (is_breached now) (breached_row now) rows)
        ≤ count_where (is_unannounced id) rows
  unfolding count_where keep change
  sent_breaches id now true [] = omega arith
  sent_breaches id now false [] = omega arith
  sent_breaches id now true (x ∷ xs) = ground (arith, sent_breaches id now true xs)
  sent_breaches id now false (x ∷ xs) = ground (arith, sent_breaches id now false xs)

  sent_warnings :
      (id now : ℕ) (connected : Bool) (rows : List QueueEntry)
      → count_where (is_breach_of id) (sends connected (warning_event now) rows) ≡ 0
  unfolding count_where
  sent_warnings id now true [] = refl
  sent_warnings id now true (x ∷ xs) = ground (arith, sent_warnings id now true xs)
  sent_warnings id now false xs = refl

  unannounced-warned :
      (id now : ℕ) (p : QueueEntry → Bool) (rows : List QueueEntry)
      → count_where (is_unannounced id) (change p (warned_row now) rows)
        ≤ count_where (is_unannounced id) rows
  unannounced-warned id now p rows =
      count-change-le (is_unannounced id) p (warned_row now) rows (λ x h k. k)

  breaches-le :
      (id : ℕ) (w : World)
      → IsKeyed (λ e. e.id) w.db.queue
      → ((i : ℕ) → w.takes_stamp i ≡ true)
      → (notices_and_unannounced id (sweep_breaches w).1 ≤ notices_and_unannounced id w)
        × IsKeyed (λ e. e.id) (sweep_breaches w).1.db.queue
        × ((i : ℕ) → (sweep_breaches w).1.takes_stamp i ≡ true)
  breaches-le id w k y = rw (sweep_breaches_outcome w k y) (
    ground (
      arith,
      count-append (is_breach_of id) w.calls
          (sends w.connected (breach_event w.now) (keep (is_breached w.now) w.db.queue)),
      sent_breaches id w.now w.connected w.db.queue,
    ),
    IsKeyed-change (λ e. e.id) (is_breached w.now) (breached_row w.now) w.db.queue (λ x. refl) k,
    y,
  )

  sweep_of_ok : (w v : World) → sweep_warnings w ≡ (ok tt, v) → (sweep w).1 ≡ (sweep_breaches v).1
  unfolding sweep
  sweep_of_ok w v e = ground arith

  sweep_of_raised : (w : World) (f : Failure) → sweep_warnings w ≡ (raised f, w) → (sweep w).1 ≡ w
  unfolding sweep
  sweep_of_raised w f e = ground arith

  sweep-le :
      (id : ℕ) (w : World)
      → IsKeyed (λ e. e.id) w.db.queue
      → ((i : ℕ) → w.takes_stamp i ≡ true)
      → (notices_and_unannounced id (sweep w).1 ≤ notices_and_unannounced id w)
        × IsKeyed (λ e. e.id) (sweep w).1.db.queue
        × ((i : ℕ) → (sweep w).1.takes_stamp i ≡ true)
  sweep-le id w k y = elim (sweep_warnings_outcome w k y) [
    | inl (h, e, s) ↦ rw (sweep_of_ok w (warned h w) s) (after h)
    | inr (f, e, s) ↦ rw (sweep_of_raised w f s) (omega arith, k, y)
  ]
    where
      keyed : (h : ℕ) → IsKeyed (λ e. e.id) (warned h w).db.queue
      keyed h =
          IsKeyed-change (λ e. e.id) (is_warnable w.now (w.now + h * 60 * 60 * 250))
            (warned_row w.now) w.db.queue (λ x. refl) k

      after :
          (h : ℕ)
          → (notices_and_unannounced id (sweep_breaches (warned h w)).1
              ≤ notices_and_unannounced id w)
            × IsKeyed (λ e. e.id) (sweep_breaches (warned h w)).1.db.queue
            × ((i : ℕ) → (sweep_breaches (warned h w)).1.takes_stamp i ≡ true)
      after h = (
        ground (
          arith,
          (breaches-le id (warned h w) (keyed h) y).0,
          unannounced-warned id w.now (is_warnable w.now (w.now + h * 60 * 60 * 250)) w.db.queue,
          count-append (is_breach_of id) w.calls (
              sends w.connected (warning_event w.now)
                (keep (is_warnable w.now (w.now + h * 60 * 60 * 250)) w.db.queue)),
          sent_warnings id w.now w.connected
              (keep (is_warnable w.now (w.now + h * 60 * 60 * 250)) w.db.queue),
        ),
        (breaches-le id (warned h w) (keyed h) y).1,
        (breaches-le id (warned h w) (keyed h) y).2,
      )

  -- The sweeps at the given times, each with or without a connection to the broker.
  unfoldable pub sweeps : List (ℕ × Bool) → World → World
  sweeps [] w = w
  sweeps ((t, connected) ∷ rest) w =
      sweeps rest (sweep (record w { now = t; connected = connected })).1

  -- However often the sweep runs, at whatever times and with or without a connection, the notices of
  -- an entry's breach and the rows of it that are not yet announced never become more in sum, where
  -- the ids of the queue are distinct and the database takes every stamp: an entry's breach is then
  -- announced at most once, and one that has been announced is not announced again.
  pub sweeps-le :
      (id : ℕ) (ticks : List (ℕ × Bool)) (w : World)
      → IsKeyed (λ e. e.id) w.db.queue
      → ((i : ℕ) → w.takes_stamp i ≡ true)
      → notices_and_unannounced id (sweeps ticks w) ≤ notices_and_unannounced id w
  unfolding sweeps
  sweeps-le id [] w k y = omega arith
  sweeps-le id ((t, c) ∷ rest) w k y = ground (
    arith,
    (sweep-le id (record w { now = t; connected = c }) k y).0,
    sweeps-le id rest (sweep (record w { now = t; connected = c })).1
        (sweep-le id (record w { now = t; connected = c }) k y).1
        (sweep-le id (record w { now = t; connected = c }) k y).2,
  )
