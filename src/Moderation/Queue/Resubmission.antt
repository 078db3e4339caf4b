-- ===== src/Moderation/Queue/Resubmission.antt =====
-- What enqueueing again leaves in the queue.
use interview_insights.Prelude.{subst, sym}
use interview_insights.World.{Failure, raised}
use interview_insights.Prelude.{
  ℕ, zero, suc, ◌+◌, ◌⊎◌, inl, inr, ◌*◌, ◌≡◌, refl, Bool, ◌&&◌, none, is_some, List, [], ◌∷◌, ◌++◌,
  drop_where, count_where, count-append, leb, arith, ==-refl,
}
use interview_insights.Prisma.{Prisma}
use interview_insights.Schema.{Db, EntityType, QueueEntry, same_type_refl}
use interview_insights.World.{SlaEnv, unset, empty, invalid, hours, World, ok}
use interview_insights.Moderation.Queue.{
  sla_hours_of, is_for, is_unreviewed_for, new_entry, lifetime_resubmission_cap,
  get_moderation_sla_hours, compute_sla_deadline, create_entry, reenqueue,
}

-- The reviewed entries of an entity.
abbrev pub is_reviewed_for : EntityType → ℕ → QueueEntry → Bool
is_reviewed_for t entity_id e = is_for t entity_id e && is_some e.reviewed_at

count-drop-zero :
    {A : Type 0} (p : A → Bool) (rows : List A) → count_where p (drop_where p rows) ≡ 0
unfolding count_where drop_where
count-drop-zero p [] = refl
count-drop-zero p (x ∷ xs) = ground (arith, count-drop-zero p xs)

hours_of-moved :
    (env : SlaEnv) (h : ℕ) (v w : World)
    → sla_hours_of env w ≡ (ok h, w)
    → sla_hours_of env v ≡ (ok h, v)
unfolding sla_hours_of
hours_of-moved unset h v w e = ground arith
hours_of-moved empty h v w e = ground arith
hours_of-moved invalid h v w e = ground arith
hours_of-moved (hours zero) h v w e = ground arith
hours_of-moved (hours (suc n)) h v w e = ground arith

-- The number of hours does not depend on the tables.
pub hours-moved :
    (h : ℕ) (w : World) (db : Db)
    → get_moderation_sla_hours w ≡ (ok h, w)
    → get_moderation_sla_hours (record w { db = db }) ≡ (ok h, record w { db = db })
unfolding get_moderation_sla_hours
hours-moved h w db e = hours_of-moved w.sla_env h (record w { db = db }) w e

-- Nor on any other part of the world than the setting.
pub hours-elsewhere :
    (h : ℕ) (w v : World)
    → v.sla_env ≡ w.sla_env
    → get_moderation_sla_hours w ≡ (ok h, w)
    → get_moderation_sla_hours v ≡ (ok h, v)
unfolding get_moderation_sla_hours
hours-elsewhere h w v s e =
    subst (λ env. sla_hours_of env v ≡ (ok h, v)) (sym s) (hours_of-moved w.sla_env h v w e)

hours_of-refused :
    (env : SlaEnv) (f : Failure) (v w : World)
    → sla_hours_of env w ≡ (raised f, w)
    → sla_hours_of env v ≡ (raised f, v)
unfolding sla_hours_of
hours_of-refused unset f v w e = ground arith
hours_of-refused empty f v w e = ground arith
hours_of-refused invalid f v w e = ground arith
hours_of-refused (hours zero) f v w e = ground arith
hours_of-refused (hours (suc n)) f v w e = ground arith

pub hours_refused-elsewhere :
    (f : Failure) (w v : World)
    → v.sla_env ≡ w.sla_env
    → get_moderation_sla_hours w ≡ (raised f, w)
    → get_moderation_sla_hours v ≡ (raised f, v)
unfolding get_moderation_sla_hours
hours_refused-elsewhere f w v s e =
    subst (λ env. sla_hours_of env v ≡ (raised f, v)) (sym s) (hours_of-refused w.sla_env f v w e)

-- The number of hours is configured properly or refused.
pub hours-cases :
    (w : World)
    → ((h : ℕ) × (get_moderation_sla_hours w ≡ (ok h, w)))
      ⊎ ((f : Failure) × (get_moderation_sla_hours w ≡ (raised f, w)))
unfolding get_moderation_sla_hours sla_hours_of
hours-cases w = go w.sla_env
  where
    go :
        (env : SlaEnv)
        → ((h : ℕ) × (sla_hours_of env w ≡ (ok h, w)))
          ⊎ ((f : Failure) × (sla_hours_of env w ≡ (raised f, w)))
    go unset = inl (48, refl)
    go empty = inl (48, refl)
    go invalid = inr (_, refl)
    go (hours zero) = inr (_, refl)
    go (hours (suc n)) = inl (suc n, refl)

module _ (t : EntityType) (entity_id : ℕ) where
  count-reviewed :
      (rows : List QueueEntry)
      → count_where (is_for t entity_id) (drop_where (is_unreviewed_for t entity_id) rows)
        ≡ count_where (is_reviewed_for t entity_id) rows
  unfolding count_where drop_where
  count-reviewed [] = refl
  count-reviewed (x ∷ xs) = ground (arith, count-reviewed xs)

  module _ ⦃P : Prisma⦄ where
    -- The entry that enqueueing again makes.
    abbrev pub resubmitted : ℕ → World → QueueEntry
    resubmitted h w =
        new_entry (P.uuid w.issued) t entity_id none (w.now + h * 60 * 60 * 1000)
          (leb lifetime_resubmission_cap (count_where (is_reviewed_for t entity_id) w.db.queue))
          w.now

    pub reenqueue-eq :
        (h : ℕ) (w : World)
        → get_moderation_sla_hours w ≡ (ok h, w)
        → reenqueue t entity_id w ≡ (
          ok (resubmitted h w),
          record w {
            db = record w.db {
              queue = drop_where (is_unreviewed_for t entity_id) w.db.queue ++ resubmitted h w ∷ [];
            };
            issued = P.uuid w.issued ∷ w.issued;
          },
        )
    unfolding reenqueue compute_sla_deadline get_moderation_sla_hours create_entry
    reenqueue-eq h w e = ground (
      arith,
      P.delete_many_law (is_unreviewed_for t entity_id) w.db.queue,
      P.count_law (is_for t entity_id) (drop_where (is_unreviewed_for t entity_id) w.db.queue),
      count-reviewed w.db.queue,
      hours_of-moved w.sla_env h
          (record w {
            db = record w.db { queue = drop_where (is_unreviewed_for t entity_id) w.db.queue };
          })
          w e,
      P.create_law (resubmitted h w) (drop_where (is_unreviewed_for t entity_id) w.db.queue),
    )

    pub reenqueue_refused :
        (f : Failure) (w : World)
        → get_moderation_sla_hours w ≡ (raised f, w)
        → reenqueue t entity_id w ≡ (
          raised f,
          record w {
            db = record w.db { queue = drop_where (is_unreviewed_for t entity_id) w.db.queue };
          },
        )
    unfolding reenqueue compute_sla_deadline
    reenqueue_refused f w e = ground (
      arith,
      P.delete_many_law (is_unreviewed_for t entity_id) w.db.queue,
      hours_refused-elsewhere f w
          (record w {
            db = record w.db { queue = drop_where (is_unreviewed_for t entity_id) w.db.queue };
          })
          refl e,
    )

    -- Enqueueing an entity again, where the number of hours is configured properly, drops the
    -- entity's unreviewed entries, keeps its reviewed ones and every other entity's in their order,
    -- and adds one unreviewed entry, so that the entity has exactly one: its deadline is the
    -- configured number of hours away, and it is escalated exactly where the entity has had at least
    -- three reviewed entries before.
    pub reenqueue_outcome :
        (h : ℕ) (w : World)
        → get_moderation_sla_hours w ≡ (ok h, w)
        → let out = reenqueue t entity_id w in
          (out.0 ≡ ok (resubmitted h w))
          × (out.1.db.queue
              ≡ drop_where (is_unreviewed_for t entity_id) w.db.queue ++ resubmitted h w ∷ [])
          × (count_where (is_unreviewed_for t entity_id) out.1.db.queue ≡ 1)
    unfolding count_where
    reenqueue_outcome h w e = ground (
      arith,
      reenqueue-eq h w e,
      count-append (is_unreviewed_for t entity_id)
          (drop_where (is_unreviewed_for t entity_id) w.db.queue) (resubmitted h w ∷ []),
      count-drop-zero (is_unreviewed_for t entity_id) w.db.queue,
      one (resubmitted h w) refl refl refl,
    )
      where
        one :
            (x : QueueEntry)
            → x.entity_type ≡ t
            → x.entity_id ≡ entity_id
            → x.reviewed_at ≡ none
            → count_where (is_unreviewed_for t entity_id) (x ∷ []) ≡ 1
        one x a b c = rw (a, b, c) (ground (arith, same_type_refl t, ==-refl entity_id))
