-- ===== src/Moderation/Schedule/Shrinking.antt =====
-- A set of rows with one id that no write of an atom enters does not grow, once the id is issued.
use interview_insights.Prelude.{
  ℕ, ◌≤◌, ◌≡◌, inl, inr, Bool, true, ◌&&◌, Option, List, [], ◌∷◌, count_where, contains,
  contains-ne, arith, count-change-le, count-drop-le, count-append,
}
use interview_insights.Prisma.{Prisma}
use interview_insights.Schema.{QueueEntry, FlagReason}
use interview_insights.World.{World, Result, ok, raised}
use interview_insights.Moderation.Queue.{has_id, is_for, is_unreviewed_for}
use interview_insights.Moderation.Claims.{is_claimable, claim_row, is_releasable, release_row}
use interview_insights.Moderation.Review.{Decision, ActionDto, is_open, review_row, review_commit}
use interview_insights.Moderation.Schedule.{
  Atom, claims, releases, commits, enqueues, reenqueues, removes, drops_orphan, elsewhere, passes,
  step,
}
use interview_insights.Moderation.Schedule.Atoms.{
  claim_write-queue, release_write-queue, remove_queue_entries-queue, delete_entry-queue, Adds,
  enqueue-Adds, reenqueue-Adds, Commits, review_commit-Commits,
}

-- The rows with the id that pass the test.
abbrev pub mine : ℕ → (QueueEntry → Bool) → QueueEntry → Bool
mine id r e = has_id id e && r e

-- No write of the atom makes a row pass the test.
abbrev pub Respects : (QueueEntry → Bool) → Atom → Type 0
Respects q (claims i m) =
    (now : ℕ) (x : QueueEntry) → is_claimable i x ≡ true → q (claim_row m now x) ≡ true → q x ≡ true
Respects q (releases i m) =
    (x : QueueEntry) → is_releasable i m x ≡ true → q (release_row x) ≡ true → q x ≡ true
Respects q (commits entry i d dto fr audit) =
    (now : ℕ) (x : QueueEntry)
    → is_open i x ≡ true
    → q (review_row d dto fr now x) ≡ true
    → q x ≡ true
Respects q _ = Unit

module _ ⦃P : Prisma⦄ (id : ℕ) (r : QueueEntry → Bool) where
  Adds-count-le :
      (rows : List QueueEntry) (w w' : World)
      → contains id w.issued ≡ true
      → count_where (mine id r) rows ≤ count_where (mine id r) w.db.queue
      → Adds rows w w'
      → count_where (mine id r) w'.db.queue ≤ count_where (mine id r) w.db.queue
  unfolding count_where
  Adds-count-le rows w w' h k (inl e) = rw e (omega arith)
  Adds-count-le rows w w' h k (inr (e, new, q, i)) = ground (
    arith,
    count-append (mine id r) rows (e ∷ []),
    contains-ne id (P.uuid w.issued) w.issued h (P.uuid_law w.issued),
  )

  Commits-count-le :
      (i : ℕ) (d : Decision) (dto : ActionDto) (fr : Option FlagReason) (w : World)
      (out : Result QueueEntry × World)
      → ((x : QueueEntry)
          → is_open i x ≡ true
          → mine id r (review_row d dto fr w.now x) ≡ true
          → mine id r x ≡ true)
      → Commits i d dto fr w out
      → count_where (mine id r) out.1.db.queue ≤ count_where (mine id r) w.db.queue
  Commits-count-le i d dto fr w (ok e, v) k c =
      rw c.1 (count-change-le (mine id r) (is_open i) (review_row d dto fr w.now) w.db.queue k)
  Commits-count-le i d dto fr w (raised f, v) k c = rw c (omega arith)

  pub step-count-le :
      (a : Atom) (w : World)
      → Respects (mine id r) a
      → contains id w.issued ≡ true
      → count_where (mine id r) (step a w).db.queue ≤ count_where (mine id r) w.db.queue
  unfolding step
  step-count-le (claims i m) w k h =
      rw claim_write-queue
        (count-change-le (mine id r) (is_claimable i) (claim_row m w.now) w.db.queue (k w.now))
  step-count-le (releases i m) w k h =
      rw release_write-queue
        (count-change-le (mine id r) (is_releasable i m) release_row w.db.queue k)
  step-count-le (commits entry i d dto fr audit) w k h =
      Commits-count-le i d dto fr w (review_commit entry i d dto fr audit w) (k w.now)
        (review_commit-Commits entry i d dto fr audit w)
  step-count-le (enqueues t entity_id fr) w k h =
      Adds-count-le w.db.queue w _ h (omega arith) (enqueue-Adds t entity_id fr w)
  step-count-le (reenqueues t entity_id) w k h =
      Adds-count-le _ w _ h (count-drop-le (mine id r) (is_unreviewed_for t entity_id) w.db.queue)
        (reenqueue-Adds t entity_id w)
  step-count-le (removes t entity_id) w k h =
      rw remove_queue_entries-queue (count-drop-le (mine id r) (is_for t entity_id) w.db.queue)
  step-count-le (drops_orphan i) w k h = elim (delete_entry-queue i w) [
    | inl e ↦ rw e (omega arith)
    | inr e ↦ rw e (count-drop-le (mine id r) (has_id i) w.db.queue)
  ]
  step-count-le (elsewhere f) w k h = omega arith
  step-count-le (passes t) w k h = omega arith
