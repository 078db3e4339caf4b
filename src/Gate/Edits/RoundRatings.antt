-- ===== src/Gate/Edits/RoundRatings.antt =====
-- Editing a round rating keeps the gate.
use interview_insights.Prelude.{
  ℕ, ◌≡◌, refl, inl, inr, none, some, [], ◌∷◌, ◌++◌, first, change, drop_where, count-eq-zero,
  first-change_self, arith, ◌==◌, Option-cases,
}
use interview_insights.Prisma.{Prisma}
use interview_insights.Schema.{round_rating, pending, RoundRating, RoundRatingDto, Db}
use interview_insights.World.{World, Failure, ok, raised, record_not_found}
use interview_insights.Moderation.Queue.{get_moderation_sla_hours, is_unreviewed_for}
use interview_insights.Moderation.Queue.Resubmission.{
  reenqueue-eq, reenqueue_refused, resubmitted, hours-moved, hours-cases, hours_refused-elsewhere,
}
use interview_insights.Moderation.Entities.{status_of}
use interview_insights.Submissions.RoundRatings.{edited_rating, edit_round_rating}
use interview_insights.Gate.{Grows}
use interview_insights.Gate.Rules.{Gated, Keeps}
use interview_insights.Gate.Steps.{IsGated-enqueued}
use interview_insights.Gate.Statuses.{Puts-round_rating_changed}
use interview_insights.Gate.Fresh.{grown_once, known_once}

module _ ⦃P : Prisma⦄ (id : ℕ) (dto : RoundRatingDto) where
  abbrev edited_round_ratings : World → Db
  edited_round_ratings w = record w.db {
    round_ratings = change (λ r. r.id == id) (edited_rating dto) w.db.round_ratings;
  }

  -- The world after the edit of a round rating.
  abbrev after_round_rating_edit : ℕ → World → World
  after_round_rating_edit h w = record w {
    db = record (edited_round_ratings w) {
      queue =
          drop_where (is_unreviewed_for round_rating id) w.db.queue
          ++ resubmitted round_rating id h (record w { db = edited_round_ratings w }) ∷ [];
    };
    issued = P.uuid w.issued ∷ w.issued;
  }

  edit_round_rating-eq :
      (h : ℕ) (w : World) (r : RoundRating)
      → get_moderation_sla_hours w ≡ (ok h, w)
      → first (λ r. r.id == id) w.db.round_ratings ≡ some r
      → edit_round_rating id dto w ≡ (
        ok (
          edited_rating dto r,
          resubmitted round_rating id h (record w { db = edited_round_ratings w }),
        ),
        after_round_rating_edit h w,
      )
  unfolding edit_round_rating
  edit_round_rating-eq h w r e s = ground (
    arith,
    P.update_law (λ (r : RoundRating). r.id == id) (edited_rating dto) w.db.round_ratings,
    count-eq-zero (λ (r : RoundRating). r.id == id) w.db.round_ratings,
    P.find_first_law (λ (r : RoundRating). r.id == id) (edited_round_ratings w).round_ratings,
    first-change_self (λ (r : RoundRating). r.id == id) (edited_rating dto) w.db.round_ratings
        (λ x. refl),
    reenqueue-eq round_rating id h (record w { db = edited_round_ratings w })
        (hours-moved h w (edited_round_ratings w) e),
  )

  edit_round_rating_refused :
      (f : Failure) (w : World) (r : RoundRating)
      → get_moderation_sla_hours w ≡ (raised f, w)
      → first (λ r. r.id == id) w.db.round_ratings ≡ some r
      → edit_round_rating id dto w ≡ (raised f, w)
  unfolding edit_round_rating
  edit_round_rating_refused f w r e s = ground (
    arith,
    P.update_law (λ (r : RoundRating). r.id == id) (edited_rating dto) w.db.round_ratings,
    count-eq-zero (λ (r : RoundRating). r.id == id) w.db.round_ratings,
    P.find_first_law (λ (r : RoundRating). r.id == id) (edited_round_ratings w).round_ratings,
    first-change_self (λ (r : RoundRating). r.id == id) (edited_rating dto) w.db.round_ratings
        (λ x. refl),
    reenqueue_refused round_rating id f (record w { db = edited_round_ratings w })
        (hours_refused-elsewhere f w (record w { db = edited_round_ratings w }) refl e),
  )

  edit_round_rating_missing :
      (w : World)
      → first (λ r. r.id == id) w.db.round_ratings ≡ none
      → edit_round_rating id dto w ≡ (raised record_not_found, w)
  unfolding edit_round_rating
  edit_round_rating_missing w n = ground (
    arith,
    P.update_law (λ (r : RoundRating). r.id == id) (edited_rating dto) w.db.round_ratings,
    count-eq-zero (λ (r : RoundRating). r.id == id) w.db.round_ratings,
  )

  round_rating_edit-Gated :
      (h : ℕ) (w : World) (r : RoundRating)
      → first (λ r. r.id == id) w.db.round_ratings ≡ some r
      → Gated w
      → Gated (after_round_rating_edit h w)
  unfolding status_of
  round_rating_edit-Gated h w r s g =
      IsGated-enqueued round_rating id w.db (after_round_rating_edit h w).db w.issued
        (after_round_rating_edit h w).issued
        (resubmitted round_rating id h (record w { db = edited_round_ratings w })) g
        (grown_once w.issued) (grown_once w.issued id (g.entities round_rating id (ground arith)))
        (P.uuid_law w.issued) (known_once w.issued) (refl, refl, refl) refl
        (Puts-round_rating_changed w.db (after_round_rating_edit h w).db.queue id
          (edited_rating dto) pending r s (λ x. refl) (λ x. refl))
        g.reviews g.processes

  edit_round_rating_at :
      (w : World)
      → Gated w
      → let out = edit_round_rating id dto w in Gated out.1 × Grows w.issued out.1.issued
  edit_round_rating_at w g = elim (Option-cases (first (λ r. r.id == id) w.db.round_ratings)) [
    | inl n ↦ rw (edit_round_rating_missing w n) (g, λ i h. h)
    | inr (r, s) ↦ elim (hours-cases w) [
      | inl (h, e) ↦
          rw (edit_round_rating-eq h w r e s)
            (round_rating_edit-Gated h w r s g, grown_once w.issued)
      | inr (f, e) ↦ rw (edit_round_rating_refused f w r e s) (g, λ i h. h)
    ]
  ]

  pub Keeps-edit_round_rating : Keeps (edit_round_rating id dto)
  Keeps-edit_round_rating = record { at = edit_round_rating_at }
