-- ===== src/Moderation/Schedule/Issued.antt =====
-- Every id in the queue has been issued, and what has been issued stays so.
use interview_insights.Prelude.{
  ℕ, ◌≡◌, inl, inr, true, Option, List, [], ◌∷◌, contains, All, All-change, All-drop, All-append,
  All-mono, arith,
}
use interview_insights.Prisma.{Prisma}
use interview_insights.Schema.{QueueEntry, FlagReason}
use interview_insights.World.{World, Result, ok, raised}
use interview_insights.Moderation.Queue.{has_id, is_for, is_unreviewed_for}
use interview_insights.Moderation.Claims.{is_claimable, claim_row, is_releasable, release_row}
use interview_insights.Moderation.Review.{Decision, ActionDto, is_open, review_row, review_commit}
use interview_insights.Moderation.Schedule.{
  Atom, claims, releases, commits, enqueues, reenqueues, removes, drops_orphan, elsewhere, passes,
  step, run,
}
use interview_insights.Moderation.Schedule.Atoms.{
  claim_write-queue, release_write-queue, remove_queue_entries-queue, delete_entry-queue, Adds,
  enqueue-Adds, reenqueue-Adds, Commits, review_commit-Commits,
}

abbrev pub AreIssued : List ℕ → List QueueEntry → Type 0
AreIssued ids = All (λ e. contains e.id ids ≡ true)

-- Every id in the queue has been issued.
pub record IsSound (w : World) : Type 0 where
  pub issued : AreIssued w.issued w.db.queue

-- What has been issued stays issued.
pub record Keeps (w w' : World) : Type 0 where
  pub kept : (id : ℕ) → contains id w.issued ≡ true → contains id w'.issued ≡ true
  pub sound : IsSound w'

AreIssued-cons :
    (i : ℕ) (ids : List ℕ) (rows : List QueueEntry) → AreIssued ids rows → AreIssued (i ∷ ids) rows
unfolding contains
AreIssued-cons i ids rows a = All-mono (λ e. contains e.id ids ≡ true) rows (λ e h. ground arith) a

module _ ⦃P : Prisma⦄ where
  Keeps-same : (w : World) → IsSound w → Keeps w w
  Keeps-same w s = record { kept = λ id h. h; sound = s }

  Keeps-queue :
      (w : World) (rows : List QueueEntry)
      → AreIssued w.issued rows
      → Keeps w (record w { db = record w.db { queue = rows } })
  Keeps-queue w rows a = record { kept = λ id h. h; sound = record { issued = a } }

  Keeps-Adds :
      (rows : List QueueEntry) (w w' : World)
      → IsSound w
      → AreIssued w.issued rows
      → Adds rows w w'
      → Keeps w w'
  unfolding contains
  Keeps-Adds rows w w' s a (inl e) = rw e (Keeps-same w s)
  Keeps-Adds rows w w' s a (inr (e, new, q, i)) = record {
    kept = λ id h. rw i (ground arith);
    sound = record {
      issued =
          rw (q, i)
            (All-append (λ x. contains x.id (e.id ∷ w.issued) ≡ true) rows (e ∷ [])
              (AreIssued-cons e.id w.issued rows a) (ground arith, tt));
    };
  }

  Keeps-Commits :
      (i : ℕ) (d : Decision) (dto : ActionDto) (fr : Option FlagReason) (w : World)
      (out : Result QueueEntry × World)
      → IsSound w
      → Commits i d dto fr w out
      → Keeps w out.1
  Keeps-Commits i d dto fr w (ok e, v) s c = record {
    kept = λ id h. rw c.2 h;
    sound = record {
      issued =
          rw (c.1, c.2)
            (All-change _ (is_open i) (review_row d dto fr w.now) w.db.queue (λ x h. h) s.issued);
    };
  }
  Keeps-Commits i d dto fr w (raised f, v) s c = rw c (Keeps-same w s)

  pub step-Keeps : (a : Atom) (w : World) → IsSound w → Keeps w (step a w)
  unfolding step
  step-Keeps (claims i m) w s = rw claim_write-queue (
      Keeps-queue w _
        (All-change _ (is_claimable i) (claim_row m w.now) w.db.queue (λ x h. h) s.issued))
  step-Keeps (releases i m) w s = rw release_write-queue (
      Keeps-queue w _ (All-change _ (is_releasable i m) release_row w.db.queue (λ x h. h) s.issued))
  step-Keeps (commits entry i d dto fr audit) w s =
      Keeps-Commits i d dto fr w (review_commit entry i d dto fr audit w) s
        (review_commit-Commits entry i d dto fr audit w)
  step-Keeps (enqueues t entity_id fr) w s =
      Keeps-Adds w.db.queue w _ s s.issued (enqueue-Adds t entity_id fr w)
  step-Keeps (reenqueues t entity_id) w s =
      Keeps-Adds _ w _ s (All-drop _ (is_unreviewed_for t entity_id) w.db.queue s.issued)
        (reenqueue-Adds t entity_id w)
  step-Keeps (removes t entity_id) w s =
      rw remove_queue_entries-queue
        (Keeps-queue w _ (All-drop _ (is_for t entity_id) w.db.queue s.issued))
  step-Keeps (drops_orphan i) w s = elim (delete_entry-queue i w) [
    | inl e ↦ rw e (Keeps-same w s)
    | inr e ↦ rw e (Keeps-queue w _ (All-drop _ (has_id i) w.db.queue s.issued))
  ]
  step-Keeps (elsewhere f) w s = record { kept = λ id h. h; sound = record { issued = s.issued } }
  step-Keeps (passes t) w s = record { kept = λ id h. h; sound = record { issued = s.issued } }

  -- Whatever runs at the same time, every id in the queue has been issued, where it was at first.
  pub run-IsSound : (schedule : List Atom) (w : World) → IsSound w → IsSound (run schedule w)
  unfolding run
  run-IsSound [] w s = s
  run-IsSound (a ∷ rest) w s = run-IsSound rest (step a w) (step-Keeps a w s).sound
