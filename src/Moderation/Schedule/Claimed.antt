-- ===== src/Moderation/Schedule/Claimed.antt =====
-- The claims of api/src/moderation/moderation.service.ts when calls run at the same time: what the
-- holder of an entry keeps.
use interview_insights.Prelude.{
  inl, inr, ◌⊎◌, count-change-same, count-drop_other, count-append, Bool-cases, ℕ, ◌≤◌, ◌≡◌, refl,
  Bool, true, false, not, ◌&&◌, Option, none, some, List, [], ◌∷◌, count_where, contains, All,
  All-of_count, count_of_All, arith, ◌==◌, eq_of_==,
}
use interview_insights.Prisma.{Prisma}
use interview_insights.Schema.{FlagReason, QueueEntry}
use interview_insights.World.{World, Result, ok, raised}
use interview_insights.Moderation.Claims.{
  is_held_by, is_claimable, claim_row, is_releasable, release_row,
}
use interview_insights.Moderation.Queue.{has_id}
use interview_insights.Moderation.Review.{Decision, ActionDto, is_open, review_row, review_commit}
use interview_insights.Moderation.Schedule.Atoms.{
  claim_write-queue, release_write-queue, delete_entry-queue, enqueue-Adds, Commits,
  review_commit-Commits,
}
use interview_insights.Moderation.Schedule.{
  Atom, claims, releases, commits, enqueues, reenqueues, removes, drops_orphan, elsewhere, passes,
  step, run,
}
use interview_insights.Moderation.Schedule.Shrinking.{mine, Respects, step-count-le}
use interview_insights.Moderation.Schedule.Issued.{IsSound, step-Keeps}

-- Is the atom the release of the entry by the moderator?
abbrev pub is_release_by : ℕ → ℕ → Atom → Bool
is_release_by id m (releases i n) = i == id && n == m
is_release_by id m _ = false

-- May the atom take the entry out of the queue?
abbrev pub may_remove : ℕ → Atom → Bool
may_remove id (reenqueues t entity_id) = true
may_remove id (removes t entity_id) = true
may_remove id (drops_orphan i) = i == id
may_remove id _ = false

-- The row is not the moderator's.
abbrev is_not_held_by : ℕ → QueueEntry → Bool
is_not_held_by m e = not (is_held_by m e.claimed_by_id)

-- Every row with the id is the moderator's.
abbrev pub IsHeld : ℕ → ℕ → List QueueEntry → Type 0
IsHeld id m = All (λ e. mine id (is_not_held_by m) e ≡ false)

Respects-release :
    (id m i n : ℕ) (x : QueueEntry)
    → (i == id && n == m) ≡ false
    → (x.id == i && is_held_by n x.claimed_by_id) ≡ true
    → (x.id == id) ≡ true
    → not (is_held_by m x.claimed_by_id) ≡ true
Respects-release id m i n x k h q = go x.claimed_by_id h
  where
    go :
        (held : Option ℕ) → (x.id == i && is_held_by n held) ≡ true → not (is_held_by m held) ≡ true
    go none h' = refl
    go (some y) h' = ground (arith, eq_of_== x.id id, eq_of_== x.id i, eq_of_== y n, eq_of_== y m)

Respects-held :
    (id m : ℕ) (a : Atom) → is_release_by id m a ≡ false → Respects (mine id (is_not_held_by m)) a
Respects-held id m (claims i n) k = λ now x h q. ground arith
Respects-held id m (releases i n) k = λ x h q. ground (arith, Respects-release id m i n x)
Respects-held id m (commits entry i d dto fr audit) k = λ now x h q. q
Respects-held id m (enqueues t entity_id fr) k = tt
Respects-held id m (reenqueues t entity_id) k = tt
Respects-held id m (removes t entity_id) k = tt
Respects-held id m (drops_orphan i) k = tt
Respects-held id m (elsewhere f) k = tt
Respects-held id m (passes t) k = tt

module _ ⦃P : Prisma⦄ where
  Commits-stays :
      (id i : ℕ) (d : Decision) (dto : ActionDto) (fr : Option FlagReason) (w : World)
      (out : Result QueueEntry × World)
      → Commits i d dto fr w out
      → count_where (has_id id) out.1.db.queue ≡ count_where (has_id id) w.db.queue
  Commits-stays id i d dto fr w (ok e, v) c =
      rw c.1 (
        count-change-same (has_id id) (is_open i) (review_row d dto fr w.now) w.db.queue
          (λ x. refl))
  Commits-stays id i d dto fr w (raised f, v) c = rw c refl

  -- An atom that may not remove it leaves the entry in the queue.
  step-stays :
      (id : ℕ) (a : Atom) (w : World)
      → may_remove id a ≡ false
      → count_where (has_id id) w.db.queue ≤ count_where (has_id id) (step a w).db.queue
  unfolding step
  step-stays id (claims i m) w k = rw claim_write-queue (
      omega (
        arith,
        count-change-same (has_id id) (is_claimable i) (claim_row m w.now) w.db.queue (λ x. refl),
      ))
  step-stays id (releases i m) w k = rw release_write-queue (
      omega (
        arith,
        count-change-same (has_id id) (is_releasable i m) release_row w.db.queue (λ x. refl),
      ))
  step-stays id (commits entry i d dto fr audit) w k = omega (
    arith,
    Commits-stays id i d dto fr w (review_commit entry i d dto fr audit w)
        (review_commit-Commits entry i d dto fr audit w),
  )
  step-stays id (enqueues t entity_id fr) w k = elim (enqueue-Adds t entity_id fr w) [
    | inl e ↦ rw e (omega arith)
    | inr (e, new, q, i) ↦ rw q (omega (arith, count-append (has_id id) w.db.queue (e ∷ [])))
  ]
  step-stays id (reenqueues t entity_id) w k = absurd (ground (arith, k))
  step-stays id (removes t entity_id) w k = absurd (ground (arith, k))
  step-stays id (drops_orphan i) w k = elim (delete_entry-queue i w) [
    | inl e ↦ rw e (omega arith)
    | inr e ↦ rw e (
        omega (
          arith,
          count-drop_other (has_id id) (has_id i) w.db.queue
              (λ x h. ground (arith, k, eq_of_== x.id i, eq_of_== x.id id)),
        ))
  ]
  step-stays id (elsewhere f) w k = omega arith
  step-stays id (passes t) w k = omega arith

  run-stays :
      (id : ℕ) (s : List Atom) (w : World)
      → (1 ≤ count_where (may_remove id) s)
        ⊎ (count_where (has_id id) w.db.queue ≤ count_where (has_id id) (run s w).db.queue)
  unfolding run count_where
  run-stays id [] w = inr (omega arith)
  run-stays id (a ∷ rest) w = elim (Bool-cases (may_remove id a)) [
    | inl y ↦ inl (ground (arith, y))
    | inr n ↦ elim (run-stays id rest (step a w)) [
      | inl k ↦ inl (ground (arith, k))
      | inr k ↦ inr (omega (arith, k, step-stays id a w n))
    ]
  ]

  run-kept :
      (id m : ℕ) (s : List Atom) (w : World)
      → IsSound w
      → contains id w.issued ≡ true
      → All (λ a. is_release_by id m a ≡ false) s
      → IsHeld id m w.db.queue
      → IsHeld id m (run s w).db.queue
  unfolding run
  run-kept id m [] w s i k h = h
  run-kept id m (a ∷ rest) w s i k h =
      run-kept id m rest (step a w) (step-Keeps a w s).sound ((step-Keeps a w s).kept id i) k.1 (
        All-of_count _ (step a w).db.queue
          (shrinks (step-count-le id (is_not_held_by m) a w (Respects-held id m a k.0) i)))
    where
      shrinks : {n : ℕ} → n ≤ count_where (mine id (is_not_held_by m)) w.db.queue → n ≡ 0
      shrinks le = ground (arith, count_of_All (mine id (is_not_held_by m)) w.db.queue h)

  -- A moderator who holds an issued entry keeps it through any schedule in which he does not release
  -- it, however the calls interleave: afterwards every row with its id is claimed by him, so that
  -- nobody else's claim, no release and no decision has taken it over. The entry is still in the
  -- queue, unless the schedule has an atom that may remove it: the removal or resubmission of a
  -- submission, or the orphan guard on the entry.
  pub run-IsHeld :
      (id m : ℕ) (s : List Atom) (w : World)
      → IsSound w
      → contains id w.issued ≡ true
      → All (λ a. is_release_by id m a ≡ false) s
      → IsHeld id m w.db.queue
      → 1 ≤ count_where (has_id id) w.db.queue
      → let queue = (run s w).db.queue in
        IsHeld id m queue
        × ((1 ≤ count_where (may_remove id) s) ⊎ (1 ≤ count_where (has_id id) queue))
  run-IsHeld id m s w sound i k h there = (
    run-kept id m s w sound i k h,
    elim (run-stays id s w) [ inl r ↦ inl r | inr r ↦ inr (omega (arith, r, there)) ],
  )
