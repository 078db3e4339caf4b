-- ===== src/Gate/Claims.antt =====
-- Claiming and releasing an entry keep the gate.
use interview_insights.Prelude.{
  ℕ, ◌≡◌, refl, Bool, true, List, [], ◌∷◌, is_some, change, count_where, contains, All-change,
  IsKeyed-change, arith, subst, sym, ap, ◌∙◌, if◌then◌else◌,
}
use interview_insights.Prisma.{Prisma}
use interview_insights.Schema.{EntityType, QueueEntry, Db}
use interview_insights.World.Quiet.{IsQuiet, quiet_rules}
use interview_insights.Moderation.Queue.{is_unreviewed_for}
use interview_insights.Moderation.Entities.{status_of-queue}
use interview_insights.Moderation.Claims.{
  claim, claim_check, claim_write, release, release_check, release_write, is_claimable,
  is_releasable, claim_row, release_row,
}
use interview_insights.Moderation.Schedule.Atoms.{claim_write-queue, release_write-queue}
use interview_insights.Gate.{IsGated, Grows, is_pending}
use interview_insights.Gate.Rules.{Gated, Keeps, Keeps-quiet, Keeps-bind}

count-touched :
    {A : Type 0} (q p : A → Bool) (f : A → A) (rows : List A)
    → ((x : A) → q (f x) ≡ q x)
    → count_where q (change p f rows) ≡ count_where q rows
unfolding count_where change
count-touched q p f [] h = refl
count-touched q p f (x ∷ xs) h = ground (arith, h x, count-touched q p f xs h)

-- Writes to other columns of the queue.
module _ (p : QueueEntry → Bool) (f : QueueEntry → QueueEntry)
    (same_id : (e : QueueEntry) → (f e).id ≡ e.id)
    (same_test : (t : EntityType) (id : ℕ) (e : QueueEntry)
      → is_unreviewed_for t id (f e) ≡ is_unreviewed_for t id e) where
  IsGated-touched :
      (db : Db) (issued : List ℕ)
      → IsGated db issued
      → IsGated (record db { queue = change p f db.queue }) issued
  IsGated-touched db issued g = record {
    keyed = IsKeyed-change (λ e. e.id) p f db.queue same_id g.keyed;
    entries =
        All-change (λ e. contains e.id issued ≡ true) p f db.queue (λ e h. rw (same_id e) h)
          g.entries;
    entities = λ t id h.
        g.entities t id (ap is_some (sym (status_of-queue t id db (change p f db.queue))) ∙ h);
    gate = λ t id.
        count-touched (is_unreviewed_for t id) p f db.queue (same_test t id)
        ∙ g.gate t id
        ∙ ap (λ o. if is_pending o then 1 else 0)
            (sym (status_of-queue t id db (change p f db.queue)));
    reviews = g.reviews;
    processes = g.processes;
  }

module _ ⦃P : Prisma⦄ (id m : ℕ) where
  Keeps-claim_write : Keeps (claim_write id m)
  Keeps-claim_write = record {
    at = λ w g.
        subst (λ v. Gated v × Grows w.issued v.issued) (sym (claim_write-queue id m w))
          (
            IsGated-touched (is_claimable id) (claim_row m w.now) (λ e. refl) (λ t i e. refl) w.db
                w.issued g,
            λ i h. h,
          );
  }

  Keeps-release_write : Keeps (release_write id m)
  Keeps-release_write = record {
    at = λ w g.
        subst (λ v. Gated v × Grows w.issued v.issued) (sym (release_write-queue id m w))
          (
            IsGated-touched (is_releasable id m) release_row (λ e. refl) (λ t i e. refl) w.db
                w.issued g,
            λ i h. h,
          );
  }

  claim_check-IsQuiet : IsQuiet (claim_check id)
  unfolding claim_check
  claim_check-IsQuiet = search quiet_rules

  release_check-IsQuiet : IsQuiet (release_check id m)
  unfolding release_check
  release_check-IsQuiet = search quiet_rules

  pub Keeps-claim : Keeps (claim id m)
  unfolding claim
  Keeps-claim =
      Keeps-bind (λ _. claim_write id m) (λ _. Keeps-claim_write) (claim_check id)
        (Keeps-quiet (claim_check id) claim_check-IsQuiet)

  pub Keeps-release : Keeps (release id m)
  unfolding release
  Keeps-release =
      Keeps-bind (λ _. release_write id m) (λ _. Keeps-release_write) (release_check id m)
        (Keeps-quiet (release_check id m) release_check-IsQuiet)
