-- ===== src/Sla/Sweeps.antt =====
-- What a sweep sends and what it stamps.
use interview_insights.Prelude.{
  ℕ, ◌≡◌, refl, inl, inr, Bool, true, false, List, [], ◌∷◌, ◌++◌, map, change, count_where,
  contains, change-change, change-none, arith, ◌==◌, if◌then◌else◌, Bool-cases, append_assoc,
  append_nil,
}
use interview_insights.Prisma.{Prisma}
use interview_insights.Schema.{QueueEntry}
use interview_insights.World.{World, ok, Action}
use interview_insights.World.Calls.{Event, Call, send}
use interview_insights.Moderation.Queue.{has_id}
use interview_insights.Moderation.Publishing.Sent.{publish-eq}
use interview_insights.Sla.{
  warning_event, breach_event, warned_row, breached_row, stamp, notify_warning, notify_breach,
  for_each,
}

-- The requests of a list of events, each keyed by its entry: none without a connection.
abbrev pub sends : Bool → (QueueEntry → Event) → List QueueEntry → List Call
sends connected event rows = if connected then map (λ e. send (event e) e.id) rows else []

-- The world after a list of entries has been announced.
abbrev pub announced :
    (QueueEntry → Event) → (QueueEntry → QueueEntry) → List QueueEntry → World → World
announced event f rows w = record w {
  db = record w.db { queue = change (λ e. contains e.id (map (λ r. r.id) rows)) f w.db.queue };
  calls = w.calls ++ sends w.connected event rows;
}

module _ ⦃P : Prisma⦄ where
  stamp-eq :
      (f : QueueEntry → QueueEntry) (id : ℕ) (w : World)
      → w.takes_stamp id ≡ true
      → stamp f id w
        ≡ (ok tt, record w { db = record w.db { queue = change (has_id id) f w.db.queue } })
  unfolding stamp
  stamp-eq f id w y = elim (Bool-cases (count_where (has_id id) w.db.queue == 0)) [
    | inl z ↦
        ground (arith, P.update_law (has_id id) f w.db.queue, change-none (has_id id) f w.db.queue)
    | inr n ↦ ground (arith, P.update_law (has_id id) f w.db.queue)
  ]

  abbrev pub announced_one :
      (QueueEntry → Event) → (QueueEntry → QueueEntry) → QueueEntry → World → World
  announced_one event f e w = record w {
    db = record w.db { queue = change (has_id e.id) f w.db.queue };
    calls = w.calls ++ sends w.connected event (e ∷ []);
  }

  pub notify_breach-eq :
      (e : QueueEntry) (w : World)
      → w.takes_stamp e.id ≡ true
      → notify_breach e w ≡ (ok tt, announced_one (breach_event w.now) (breached_row w.now) e w)
  unfolding notify_breach
  notify_breach-eq e w y = ground (
    arith,
    publish-eq (breach_event w.now e) e.id w,
    stamp-eq (breached_row w.now) e.id
        (record w { calls = w.calls ++ sends w.connected (breach_event w.now) (e ∷ []) }) y,
  )

  pub notify_warning-eq :
      (e : QueueEntry) (w : World)
      → w.takes_stamp e.id ≡ true
      → notify_warning e w ≡ (ok tt, announced_one (warning_event w.now) (warned_row w.now) e w)
  unfolding notify_warning
  notify_warning-eq e w y = ground (
    arith,
    publish-eq (warning_event w.now e) e.id w,
    stamp-eq (warned_row w.now) e.id
        (record w { calls = w.calls ++ sends w.connected (warning_event w.now) (e ∷ []) }) y,
  )

  module _ (event : QueueEntry → Event) (f : QueueEntry → QueueEntry) where
    sends-cons :
        (connected : Bool) (e : QueueEntry) (rows : List QueueEntry)
        → sends connected event (e ∷ rows)
          ≡ sends connected event (e ∷ []) ++ sends connected event rows
    sends-cons true e rows = refl
    sends-cons false e rows = refl

    sends-nil : (connected : Bool) → sends connected event [] ≡ []
    sends-nil true = refl
    sends-nil false = refl

    count-never : (rows : List QueueEntry) → count_where (λ e. false) rows ≡ 0
    unfolding count_where
    count-never [] = refl
    count-never (x ∷ xs) = ground (arith, count-never xs)

    pub for_each-eq :
        (m : QueueEntry → Action Unit) (now : ℕ)
        → ((x : QueueEntry) → (f x).id ≡ x.id)
        → ((x : QueueEntry) → f (f x) ≡ f x)
        → ((e : QueueEntry) (w : World)
            → w.now ≡ now
            → w.takes_stamp e.id ≡ true
            → m e w ≡ (ok tt, announced_one event f e w))
        → (rows : List QueueEntry) (w : World) → w.now ≡ now
        → ((i : ℕ) → w.takes_stamp i ≡ true)
        → for_each m rows w ≡ (ok tt, announced event f rows w)
    unfolding for_each contains
    for_each-eq m now i k h [] w t y = ground (
      arith,
      change-none (λ e. false) f w.db.queue,
      count-never w.db.queue,
      append_nil w.calls,
      sends-nil w.connected,
    )
    for_each-eq m now i k h (e ∷ rest) w t y = ground (
      arith,
      h e w t (y e.id),
      for_each-eq m now i k h rest (announced_one event f e w) t y,
      sends-cons w.connected e rest,
      append_assoc w.calls (sends w.connected event (e ∷ [])) (sends w.connected event rest),
      change-change (λ x. contains x.id (map (λ r. r.id) rest)) (has_id e.id) f w.db.queue
          (λ x. rw (i x) refl) k,
    )
