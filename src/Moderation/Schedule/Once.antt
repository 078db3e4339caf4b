-- ===== src/Moderation/Schedule/Once.antt =====
-- The decisions of api/src/moderation/moderation.service.ts when calls run at the same time.
use interview_insights.Prelude.{
  ℕ, ◌≤◌, ◌≡◌, refl, inl, inr, true, false, Option, List, [], ◌∷◌, ◌++◌, count_where, contains, All,
  All-mono, arith, ◌==◌, count-change-zero, eq_of_==, Bool-cases, ap, contains-append,
}
use interview_insights.Prisma.{Prisma}
use interview_insights.Schema.{QueueEntry, FlagReason}
use interview_insights.World.{World, Result, ok, raised}
use interview_insights.Moderation.Queue.{is_unreviewed}
use interview_insights.Moderation.Review.{Decision, ActionDto, is_open, review_row, review_commit}
use interview_insights.Moderation.Schedule.{
  Atom, claims, releases, commits, enqueues, reenqueues, removes, drops_orphan, elsewhere, passes,
  step, decided, decided_by, answered,
}
use interview_insights.Moderation.Schedule.Atoms.{Commits, review_commit-Commits}
use interview_insights.Moderation.Schedule.Shrinking.{mine, Respects, step-count-le}
use interview_insights.Moderation.Schedule.Issued.{AreIssued, IsSound, step-Keeps}

-- No number stands in the list twice.
abbrev pub AreDistinct : List ℕ → Type 0
AreDistinct [] = Unit
AreDistinct (x ∷ xs) = (contains x xs ≡ false) × AreDistinct xs

-- The entry has been issued and no row of it is open.
abbrev IsSettled : ℕ → World → Type 0
IsSettled id w =
    (contains id w.issued ≡ true) × (count_where (mine id is_unreviewed) w.db.queue ≡ 0)

Respects-open : (id : ℕ) (a : Atom) → Respects (mine id is_unreviewed) a
Respects-open id (claims i m) = λ now x h k. k
Respects-open id (releases i m) = λ x h k. k
Respects-open id (commits entry i d dto fr audit) = λ now x h k. ground arith
Respects-open id (enqueues t entity_id fr) = tt
Respects-open id (reenqueues t entity_id) = tt
Respects-open id (removes t entity_id) = tt
Respects-open id (drops_orphan i) = tt
Respects-open id (elsewhere f) = tt
Respects-open id (passes t) = tt

-- An issued row that is counted has an issued id.
issued_of_count :
    (id : ℕ) (ids : List ℕ) (rows : List QueueEntry)
    → AreIssued ids rows
    → 1 ≤ count_where (is_open id) rows
    → contains id ids ≡ true
unfolding count_where
issued_of_count id ids [] a h = absurd (omega arith)
issued_of_count id ids (x ∷ xs) a h = elim (Bool-cases (x.id == id)) [
  | inl e ↦ cc (ap (λ k. contains k ids) (eq_of_== x.id id e), a.0)
  | inr n ↦ ground (arith, issued_of_count id ids xs a.1)
]

module _ ⦃P : Prisma⦄ where
  step-IsSettled :
      (id : ℕ) (a : Atom) (w : World) → IsSound w → IsSettled id w → IsSettled id (step a w)
  step-IsSettled id a w s h = (
    (step-Keeps a w s).kept id h.0,
    ground (arith, step-count-le id is_unreviewed a w (Respects-open id a) h.0),
  )

  clash : {m n : ℕ} → m ≡ n → m ≡ 0 → 1 ≤ n → ⊥
  clash e z p = omega arith

  answered-not_settled :
      (id i : ℕ) (d : Decision) (dto : ActionDto) (fr : Option FlagReason) (w : World)
      (out : Result QueueEntry × World)
      → IsSettled id w
      → Commits i d dto fr w out
      → contains id (answered i out.0) ≡ false
  unfolding answered contains
  answered-not_settled id i d dto fr w (ok e, v) h c = elim (Bool-cases (id == i)) [
    | inl same ↦ absurd (impossible (eq_of_== id i same))
    | inr n ↦ rw n refl
  ]
    where
      impossible : id ≡ i → ⊥
      impossible same = clash (ap (λ k. count_where (is_open k) w.db.queue) same) h.1 c.0
  answered-not_settled id i d dto fr w (raised f, v) h c = refl

  decided_by-not_settled :
      (id : ℕ) (a : Atom) (w : World) → IsSettled id w → contains id (decided_by a w) ≡ false
  unfolding decided_by contains
  decided_by-not_settled id (commits entry i d dto fr audit) w h =
      answered-not_settled id i d dto fr w (review_commit entry i d dto fr audit w) h
        (review_commit-Commits entry i d dto fr audit w)
  decided_by-not_settled id (claims i m) w h = refl
  decided_by-not_settled id (releases i m) w h = refl
  decided_by-not_settled id (enqueues t entity_id fr) w h = refl
  decided_by-not_settled id (reenqueues t entity_id) w h = refl
  decided_by-not_settled id (removes t entity_id) w h = refl
  decided_by-not_settled id (drops_orphan i) w h = refl
  decided_by-not_settled id (elsewhere f) w h = refl
  decided_by-not_settled id (passes t) w h = refl

  decided-not_settled :
      (id : ℕ) (s : List Atom) (w : World)
      → IsSound w
      → IsSettled id w
      → contains id (decided s w) ≡ false
  unfolding decided contains
  decided-not_settled id [] w k h = refl
  decided-not_settled id (a ∷ rest) w k h =
      rw (contains-append id (decided_by a w) (decided rest (step a w))) (
        rw (decided_by-not_settled id a w h) (
          decided-not_settled id rest (step a w) (step-Keeps a w k).sound
            (step-IsSettled id a w k h)))

  -- After a decision that commits, its entry is settled.
  IsSettled-after :
      (i : ℕ) (d : Decision) (dto : ActionDto) (fr : Option FlagReason) (w : World)
      (out : Result QueueEntry × World)
      → IsSound w
      → Commits i d dto fr w out
      → All (λ id. IsSettled id out.1) (answered i out.0)
  unfolding answered
  IsSettled-after i d dto fr w (ok e, v) s c = (
    (
      rw c.2 (issued_of_count i w.issued w.db.queue s.issued c.0),
      rw c.1 (
          count-change-zero (is_open i) (review_row d dto fr w.now) w.db.queue
            (λ x h. ground arith)),
    ),
    tt,
  )
  IsSettled-after i d dto fr w (raised f, v) s c = tt

  decided_by-IsSettled :
      (a : Atom) (w : World) → IsSound w → All (λ id. IsSettled id (step a w)) (decided_by a w)
  unfolding decided_by step
  decided_by-IsSettled (commits entry i d dto fr audit) w s =
      IsSettled-after i d dto fr w (review_commit entry i d dto fr audit w) s
        (review_commit-Commits entry i d dto fr audit w)
  decided_by-IsSettled (claims i m) w s = tt
  decided_by-IsSettled (releases i m) w s = tt
  decided_by-IsSettled (enqueues t entity_id fr) w s = tt
  decided_by-IsSettled (reenqueues t entity_id) w s = tt
  decided_by-IsSettled (removes t entity_id) w s = tt
  decided_by-IsSettled (drops_orphan i) w s = tt
  decided_by-IsSettled (elsewhere f) w s = tt
  decided_by-IsSettled (passes t) w s = tt

  answered-distinct :
      (i : ℕ) (out : Result QueueEntry) (ids : List ℕ)
      → All (λ id. contains id ids ≡ false) (answered i out)
      → AreDistinct ids
      → AreDistinct (answered i out ++ ids)
  unfolding answered
  answered-distinct i (ok e) ids a d = (a.0, d)
  answered-distinct i (raised f) ids a d = d

  decided_by-distinct :
      (a : Atom) (w : World) (ids : List ℕ)
      → All (λ id. contains id ids ≡ false) (decided_by a w)
      → AreDistinct ids
      → AreDistinct (decided_by a w ++ ids)
  unfolding decided_by
  decided_by-distinct (commits entry i d dto fr audit) w ids a k =
      answered-distinct i (review_commit entry i d dto fr audit w).0 ids a k
  decided_by-distinct (claims i m) w ids a k = k
  decided_by-distinct (releases i m) w ids a k = k
  decided_by-distinct (enqueues t entity_id fr) w ids a k = k
  decided_by-distinct (reenqueues t entity_id) w ids a k = k
  decided_by-distinct (removes t entity_id) w ids a k = k
  decided_by-distinct (drops_orphan i) w ids a k = k
  decided_by-distinct (elsewhere f) w ids a k = k
  decided_by-distinct (passes t) w ids a k = k

  -- Started where every id in the queue has been issued, no schedule of atoms decides an entry
  -- twice: the ids of the decisions that commit are distinct, however the calls interleave and
  -- however stale their reads are.
  pub decided-AreDistinct : (s : List Atom) (w : World) → IsSound w → AreDistinct (decided s w)
  unfolding decided
  decided-AreDistinct [] w k = tt
  decided-AreDistinct (a ∷ rest) w k =
      decided_by-distinct a w (decided rest (step a w))
        (All-mono _ (decided_by a w)
          (λ id h. decided-not_settled id rest (step a w) (step-Keeps a w k).sound h)
          (decided_by-IsSettled a w k))
        (decided-AreDistinct rest (step a w) (step-Keeps a w k).sound)
