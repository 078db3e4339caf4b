-- ===== src/Moderation/Schedule/Atoms.antt =====
-- What one atom does to the queue: no test that its writes cannot newly satisfy counts more rows
-- after it than before, and every id in the queue has been issued.
use interview_insights.Prelude.{
  ℕ, ◌≤◌, ◌≡◌, refl, inl, inr, ◌⊎◌, Bool, false, Option, none, List, [], ◌∷◌, ◌++◌, change,
  drop_where, count_where, arith, ◌==◌, leb, if◌then◌else◌, Bool-cases,
}
use interview_insights.Prisma.{Prisma}
use interview_insights.Schema.{EntityType, FlagReason, QueueEntry}
use interview_insights.World.{World, Result, ok, raised, transaction}
use interview_insights.Moderation.Queue.{
  is_for, is_unreviewed_for, has_id, enqueue, reenqueue, remove_queue_entries, new_entry,
  compute_sla_deadline, create_entry, get_moderation_sla_hours, sla_hours_of,
}
use interview_insights.Moderation.Claims.{
  claim_write, release_write, is_claimable, claim_row, is_releasable, release_row, already_reviewed,
}
use interview_insights.Moderation.Review.{
  Decision, ActionDto, AuditInput, is_open, review_row, decide, review_commit, delete_entry,
  entity_status,
}
use interview_insights.Moderation.Review.Outcomes.{
  with_db, decided_queue, queue-audited, record_audit-eq,
}
use interview_insights.Moderation.Entities.{with_status, set_status-eq, queue-with_status}
use interview_insights.Moderation.Claims.Holders.{with_queue}

module _ ⦃P : Prisma⦄ where
  pub claim_write-queue :
      (id m : ℕ) (w : World)
      → (claim_write id m w).1
        ≡ with_queue w (change (is_claimable id) (claim_row m w.now) w.db.queue)
  unfolding claim_write
  claim_write-queue id m w =
      ground (arith, P.update_many_law (is_claimable id) (claim_row m w.now) w.db.queue)

  pub release_write-queue :
      (id m : ℕ) (w : World)
      → (release_write id m w).1 ≡ with_queue w (change (is_releasable id m) release_row w.db.queue)
  unfolding release_write
  release_write-queue id m w =
      ground (arith, P.update_many_law (is_releasable id m) release_row w.db.queue)

  pub remove_queue_entries-queue :
      (t : EntityType) (entity_id : ℕ) (w : World)
      → (remove_queue_entries t entity_id w).1
        ≡ with_queue w (drop_where (is_for t entity_id) w.db.queue)
  unfolding remove_queue_entries
  remove_queue_entries-queue t entity_id w =
      ground (arith, P.delete_many_law (is_for t entity_id) w.db.queue)

  pub delete_entry-queue :
      (id : ℕ) (w : World)
      → ((delete_entry id w).1 ≡ w)
        ⊎ ((delete_entry id w).1 ≡ with_queue w (drop_where (has_id id) w.db.queue))
  unfolding delete_entry
  delete_entry-queue id w = elim (Bool-cases (count_where (has_id id) w.db.queue == 0)) [
    | inl z ↦ inl (ground (arith, P.delete_law (has_id id) w.db.queue))
    | inr n ↦ inr (ground (arith, P.delete_law (has_id id) w.db.queue))
  ]

  compute_sla_deadline-state : (w : World) → (compute_sla_deadline w).1 ≡ w
  unfolding compute_sla_deadline get_moderation_sla_hours sla_hours_of
  compute_sla_deadline-state w = ground arith

  create_entry-eq :
      (t : EntityType) (entity_id : ℕ) (fr : Option FlagReason) (deadline : ℕ) (escalated : Bool)
      (w : World)
      → let entry = new_entry (P.uuid w.issued) t entity_id fr deadline escalated w.now in
        create_entry t entity_id fr deadline escalated w ≡ (
          ok entry,
          record w {
            db = record w.db { queue = w.db.queue ++ entry ∷ [] };
            issued = P.uuid w.issued ∷ w.issued;
          },
        )
  unfolding create_entry
  create_entry-eq t entity_id fr deadline escalated w = ground (
    arith,
    P.create_law (new_entry (P.uuid w.issued) t entity_id fr deadline escalated w.now) w.db.queue,
  )

  -- The queue after a transaction that adds an entry to the rows.
  abbrev pub Adds : List QueueEntry → World → World → Type 0
  Adds rows w w' =
      (w' ≡ w)
      ⊎ ((e : QueueEntry) × (e.id ≡ P.uuid w.issued)
          × (w'.db.queue ≡ rows ++ e ∷ [])
          × (w'.issued ≡ e.id ∷ w.issued))

  pub enqueue-Adds :
      (t : EntityType) (entity_id : ℕ) (fr : Option FlagReason) (w : World)
      → Adds w.db.queue w (transaction (enqueue t entity_id fr) w).1
  unfolding enqueue
  enqueue-Adds t entity_id fr w = go (compute_sla_deadline w) refl
    where
      go :
          (out : Result ℕ × World)
          → compute_sla_deadline w ≡ out
          → Adds w.db.queue w (transaction (enqueue t entity_id fr) w).1
      go (ok dl, v) e = inr (
        new_entry (P.uuid w.issued) t entity_id fr dl false w.now,
        refl,
        ground (arith, compute_sla_deadline-state w, create_entry-eq t entity_id fr dl false w),
        ground (arith, compute_sla_deadline-state w, create_entry-eq t entity_id fr dl false w),
      )
      go (raised f, v) e = inl (ground (arith, compute_sla_deadline-state w))

  pub reenqueue-Adds :
      (t : EntityType) (entity_id : ℕ) (w : World)
      → Adds
          (drop_where (is_unreviewed_for t entity_id) w.db.queue)
          w
          (transaction (reenqueue t entity_id) w).1
  unfolding reenqueue
  reenqueue-Adds t entity_id w = go (compute_sla_deadline v) refl
    where
      v : World
      v = with_queue w (P.delete_many (is_unreviewed_for t entity_id) w.db.queue)

      esc : Bool
      esc = leb 3 (P.count (is_for t entity_id) v.db.queue)

      go :
          (out : Result ℕ × World)
          → compute_sla_deadline v ≡ out
          → Adds
              (drop_where (is_unreviewed_for t entity_id) w.db.queue)
              w
              (transaction (reenqueue t entity_id) w).1
      go (ok dl, u) e = inr (
        new_entry (P.uuid w.issued) t entity_id none dl esc w.now,
        refl,
        ground (
          arith,
          compute_sla_deadline-state v,
          create_entry-eq t entity_id none dl esc v,
          P.delete_many_law (is_unreviewed_for t entity_id) w.db.queue,
        ),
        ground (arith, compute_sla_deadline-state v, create_entry-eq t entity_id none dl esc v),
      )
      go (raised f, u) e = inl (ground (arith, compute_sla_deadline-state v))

  decide-eq :
      (id : ℕ) (d : Decision) (dto : ActionDto) (fr : Option FlagReason) (w : World)
      → decide id d dto fr w ≡ (
        (if count_where (is_open id) w.db.queue == 0 then raised already_reviewed else ok tt),
        with_db w (decided_queue id d dto fr w.now w.db),
      )
  unfolding decide
  decide-eq id d dto fr w =
      ground (arith, P.update_many_law (is_open id) (review_row d dto fr w.now) w.db.queue)

  -- What the transaction of a decision on an entry did, by its answer.
  abbrev pub Commits :
      ℕ → Decision → ActionDto → Option FlagReason → World → Result QueueEntry × World → Type 0
  Commits id d dto fr w (ok e, v) =
      (1 ≤ count_where (is_open id) w.db.queue)
      × (v.db.queue ≡ (decided_queue id d dto fr w.now w.db).queue)
      × (v.issued ≡ w.issued)
  Commits id d dto fr w (raised f, v) = v ≡ w

  module _ (entry : QueueEntry) (id : ℕ) (d : Decision) (dto : ActionDto) (fr : Option FlagReason)
      (audit : Option AuditInput) where
    review_commit-Commits' :
        (w : World)
        → (out : Result QueueEntry × World) → review_commit entry id d dto fr audit w ≡ out
        → Commits id d dto fr w out
    unfolding review_commit
    review_commit-Commits' w (ok e, v) h = ground (
      arith,
      decide-eq id d dto fr w,
      set_status-eq entry.entity_type entry.entity_id (entity_status d entry.escalated)
          (with_db w (decided_queue id d dto fr w.now w.db)),
      queue-with_status entry.entity_type entry.entity_id (entity_status d entry.escalated)
          (decided_queue id d dto fr w.now w.db),
      record_audit-eq id d dto fr audit (
          with_db w (
            with_status entry.entity_type entry.entity_id (entity_status d entry.escalated)
              (decided_queue id d dto fr w.now w.db))),
      queue-audited id audit (
          with_status entry.entity_type entry.entity_id (entity_status d entry.escalated)
            (decided_queue id d dto fr w.now w.db)),
    )
    review_commit-Commits' w (raised f, v) h = ground (
      arith,
      decide-eq id d dto fr w,
      set_status-eq entry.entity_type entry.entity_id (entity_status d entry.escalated)
          (with_db w (decided_queue id d dto fr w.now w.db)),
      record_audit-eq id d dto fr audit (
          with_db w (
            with_status entry.entity_type entry.entity_id (entity_status d entry.escalated)
              (decided_queue id d dto fr w.now w.db))),
    )

    pub review_commit-Commits :
        (w : World) → Commits id d dto fr w (review_commit entry id d dto fr audit w)
    review_commit-Commits w =
        review_commit-Commits' w (review_commit entry id d dto fr audit w) refl
