-- ===== src/Moderation/Claims/Holders.antt =====
-- The outcome of claim and release, from any state of the queue: the gated writes alone enforce what
-- the reads before them check.
use interview_insights.Prelude.{
  ℕ, ◌≡◌, refl, inl, inr, true, false, Option, none, some, is_some, List, first, change, IsKeyed,
  arith, ◌==◌, if◌then◌else◌, Option-cases, count-zero_of_none, count-zero_of_first,
  count-pos_of_first, first_sound, change-none, first-change,
}
use interview_insights.Prisma.{Prisma}
use interview_insights.Schema.{QueueEntry}
use interview_insights.World.{World, Result, ok, raised, record_not_found}
use interview_insights.Moderation.Queue.{has_id}
use interview_insights.Moderation.Claims.{
  claim_check, claim_write, claim, already_reviewed, already_claimed, is_claimable, claim_row,
  release_check, release_write, release, not_claimed, not_holder, is_releasable, release_row,
}

-- What claiming a row says.
abbrev pub claim_answer : ℕ → ℕ → Option QueueEntry → Result QueueEntry
claim_answer m now none = raised record_not_found
claim_answer m now (some e) = elim (is_some e.reviewed_at) [
  | true ↦ raised already_reviewed
  | false ↦ elim (is_some e.claimed_by_id) [
    | true ↦ raised already_claimed
    | false ↦ ok (claim_row m now e)
  ]
]

-- What releasing a row says.
abbrev pub release_answer : ℕ → Option QueueEntry → Result QueueEntry
release_answer m none = raised record_not_found
release_answer m (some e) = elim e.claimed_by_id [
  | none ↦ raised not_claimed
  | some h ↦ if h == m then ok (release_row e) else raised not_holder
]

abbrev pub with_queue : World → List QueueEntry → World
with_queue w rows = record w { db = record w.db { queue = rows } }

module _ ⦃P : Prisma⦄ where
  claim_write-none :
      (id m : ℕ) (w : World)
      → IsKeyed (λ e. e.id) w.db.queue
      → first (has_id id) w.db.queue ≡ none
      → claim_write id m w ≡ (raised record_not_found, w)
  unfolding claim_write
  claim_write-none id m w u n = ground (
    arith,
    P.update_many_law (is_claimable id) (claim_row m w.now) w.db.queue,
    P.find_first_law (has_id id) w.db.queue,
    count-zero_of_none (has_id id) (is_claimable id) w.db.queue (λ x h. ground arith) n,
    change-none (is_claimable id) (claim_row m w.now) w.db.queue,
  )

  claim_write-some :
      (id m : ℕ) (w : World) (e : QueueEntry)
      → IsKeyed (λ e. e.id) w.db.queue
      → first (has_id id) w.db.queue ≡ some e
      → claim_write id m w ≡ (
        claim_answer m w.now (some e),
        with_queue w (change (is_claimable id) (claim_row m w.now) w.db.queue),
      )
  unfolding claim_write
  claim_write-some id m w e u n = ground (
    arith,
    P.update_many_law (is_claimable id) (claim_row m w.now) w.db.queue,
    P.find_first_law (has_id id) w.db.queue,
    P.find_first_law (has_id id) (change (is_claimable id) (claim_row m w.now) w.db.queue),
    first-change (has_id id) (is_claimable id) (claim_row m w.now) w.db.queue (λ x. refl),
    count-zero_of_first (λ (e : QueueEntry). e.id) id (is_claimable id) w.db.queue e u
        (λ x h. ground arith) n,
    first_sound (has_id id) w.db.queue e n,
    count-pos_of_first (has_id id) (is_claimable id) w.db.queue e n,
    change-none (is_claimable id) (claim_row m w.now) w.db.queue,
  )

  -- A row that refuses its claim leaves the table alone.
  unclaimable :
      (id m : ℕ) (w : World) (e : QueueEntry)
      → IsKeyed (λ e. e.id) w.db.queue
      → first (has_id id) w.db.queue ≡ some e
      → is_claimable id e ≡ false
      → change (is_claimable id) (claim_row m w.now) w.db.queue ≡ w.db.queue
  unclaimable id m w e u n f = change-none (is_claimable id) (claim_row m w.now) w.db.queue (
      count-zero_of_first (λ (e : QueueEntry). e.id) id (is_claimable id) w.db.queue e u
        (λ x h. ground arith) n f)

  unreleasable :
      (id m : ℕ) (w : World) (e : QueueEntry)
      → IsKeyed (λ e. e.id) w.db.queue
      → first (has_id id) w.db.queue ≡ some e
      → is_releasable id m e ≡ false
      → change (is_releasable id m) release_row w.db.queue ≡ w.db.queue
  unreleasable id m w e u n f = change-none (is_releasable id m) release_row w.db.queue (
      count-zero_of_first (λ (e : QueueEntry). e.id) id (is_releasable id m) w.db.queue e u
        (λ x h. ground arith) n f)

  -- The gated write of a claim, in any world whose queue has distinct ids: its
  -- answer is that of the row with this id (missing, already reviewed, already claimed, or the row with
  -- the new holder and time), and only a row with this id that is unreviewed and unclaimed changes.
  pub claim_write_outcome :
      (id m : ℕ) (w : World)
      → IsKeyed (λ e. e.id) w.db.queue
      → claim_write id m w ≡ (
        claim_answer m w.now (first (has_id id) w.db.queue),
        with_queue w (change (is_claimable id) (claim_row m w.now) w.db.queue),
      )
  claim_write_outcome id m w u = elim (Option-cases (first (has_id id) w.db.queue)) [
    | inl n ↦ ground (
      arith,
      claim_write-none id m w u n,
      count-zero_of_none (has_id id) (is_claimable id) w.db.queue (λ x h. ground arith) n,
      change-none (is_claimable id) (claim_row m w.now) w.db.queue,
    )
    | inr (e, s) ↦ rw s (claim_write-some id m w e u s)
  ]

  -- With distinct ids, a claim whose read and write nothing comes between has the result of its gated
  -- write alone.
  pub claim-eq-claim_write :
      (id m : ℕ) (w : World) → IsKeyed (λ e. e.id) w.db.queue → claim id m w ≡ claim_write id m w
  unfolding claim claim_check
  claim-eq-claim_write id m w u = elim (Option-cases (first (has_id id) w.db.queue)) [
    | inl n ↦ ground (arith, claim_write-none id m w u n, P.find_first_law (has_id id) w.db.queue)
    | inr (e, s) ↦ ground (
      arith,
      claim_write-some id m w e u s,
      P.find_first_law (has_id id) w.db.queue,
      unclaimable id m w e u s,
    )
  ]

  release_write-none :
      (id m : ℕ) (w : World)
      → first (has_id id) w.db.queue ≡ none
      → release_write id m w ≡ (raised record_not_found, w)
  unfolding release_write
  release_write-none id m w n = ground (
    arith,
    P.update_many_law (is_releasable id m) release_row w.db.queue,
    P.find_first_law (has_id id) w.db.queue,
    count-zero_of_none (has_id id) (is_releasable id m) w.db.queue (λ x h. ground arith) n,
    change-none (is_releasable id m) release_row w.db.queue,
  )

  release_write-some :
      (id m : ℕ) (w : World) (e : QueueEntry)
      → IsKeyed (λ e. e.id) w.db.queue
      → first (has_id id) w.db.queue ≡ some e
      → release_write id m w ≡ (
        release_answer m (some e),
        with_queue w (change (is_releasable id m) release_row w.db.queue),
      )
  unfolding release_write
  release_write-some id m w e u n = ground (
    arith,
    P.update_many_law (is_releasable id m) release_row w.db.queue,
    P.find_first_law (has_id id) w.db.queue,
    P.find_first_law (has_id id) (change (is_releasable id m) release_row w.db.queue),
    first-change (has_id id) (is_releasable id m) release_row w.db.queue (λ x. refl),
    count-zero_of_first (λ (e : QueueEntry). e.id) id (is_releasable id m) w.db.queue e u
        (λ x h. ground arith) n,
    first_sound (has_id id) w.db.queue e n,
    count-pos_of_first (has_id id) (is_releasable id m) w.db.queue e n,
    change-none (is_releasable id m) release_row w.db.queue,
  )

  -- The gated write of a release, in any world whose queue has distinct ids: its
  -- answer is that of the row with this id (missing, not claimed, held by another, or the row with no
  -- holder), and only a row with this id that the caller holds changes.
  pub release_write_outcome :
      (id m : ℕ) (w : World)
      → IsKeyed (λ e. e.id) w.db.queue
      → release_write id m w ≡ (
        release_answer m (first (has_id id) w.db.queue),
        with_queue w (change (is_releasable id m) release_row w.db.queue),
      )
  release_write_outcome id m w u = elim (Option-cases (first (has_id id) w.db.queue)) [
    | inl n ↦ ground (
      arith,
      release_write-none id m w n,
      count-zero_of_none (has_id id) (is_releasable id m) w.db.queue (λ x h. ground arith) n,
      change-none (is_releasable id m) release_row w.db.queue,
    )
    | inr (e, s) ↦ rw s (release_write-some id m w e u s)
  ]

  -- With distinct ids, a release whose read and write nothing comes between has the result of its
  -- gated write alone.
  pub release-eq-release_write :
      (id m : ℕ) (w : World)
      → IsKeyed (λ e. e.id) w.db.queue
      → release id m w ≡ release_write id m w
  unfolding release release_check
  release-eq-release_write id m w u = elim (Option-cases (first (has_id id) w.db.queue)) [
    | inl n ↦ ground (arith, release_write-none id m w n, P.find_first_law (has_id id) w.db.queue)
    | inr (e, s) ↦ ground (
      arith,
      release_write-some id m w e u s,
      P.find_first_law (has_id id) w.db.queue,
      unreleasable id m w e u s,
    )
  ]
